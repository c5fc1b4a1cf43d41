-- ===== src/Text/Case.antt =====
-- `strings.ToUpper`, `strings.ToLower` and `strings.EqualFold`.
use opengpm.Base.{
  ℕ, suc, ◌+◌, ◌-◌, [], ◌∷◌, map, ◌≡◌, refl, Bool, true, false, ◌&&◌, ◌==◌, ltb, leb, if◌then◌else◌,
  arith, all, length, ap,
}
use opengpm.Text.{Bytes}

abbrev pub is_ascii : ℕ → Bool
is_ascii c = ltb c 128

unfoldable pub upper_byte : ℕ → ℕ
upper_byte c = if leb b'a' c && leb c b'z' then c - 32 else c

unfoldable pub lower_byte : ℕ → ℕ
lower_byte c = if leb b'A' c && leb c b'Z' then c + 32 else c

-- An ASCII text is mapped byte by byte. `wide` is the mapping by Unicode's tables, which
-- `strings.ToUpper` takes for any other text.
unfoldable pub to_upper : (Bytes → Bytes) → Bytes → Bytes
unfolding upper_byte
to_upper wide s = if all is_ascii s then map upper_byte s else wide s

unfoldable pub to_lower : (Bytes → Bytes) → Bytes → Bytes
unfolding lower_byte
to_lower wide s = if all is_ascii s then map lower_byte s else wide s

-- `strings.EqualFold` against an ASCII text none of whose letters has a fold outside ASCII (all
-- but `k` and `s`), as the two literals of gplink.go are.
unfoldable pub equal_fold : Bytes → Bytes → Bool
unfolding lower_byte
equal_fold [] [] = true
equal_fold (x ∷ s) (y ∷ t) = lower_byte x == lower_byte y && equal_fold s t
equal_fold _ _ = false

pub equal_fold_self : (s : Bytes) → equal_fold s s ≡ true
unfolding equal_fold
equal_fold_self [] = refl
equal_fold_self (x ∷ s) = ground (arith, equal_fold_self s)

pub length-equal_fold : (s t : Bytes) → equal_fold s t ≡ true → length s ≡ length t
unfolding equal_fold
length-equal_fold [] [] h = refl
length-equal_fold [] (y ∷ t) h = cc
length-equal_fold (x ∷ s) [] h = cc
length-equal_fold (x ∷ s) (y ∷ t) h = ap suc (length-equal_fold s t (ground arith))

pub upper_byte_idem : (c : ℕ) → upper_byte (upper_byte c) ≡ upper_byte c
unfolding upper_byte
upper_byte_idem c = ground arith
