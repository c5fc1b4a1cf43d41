-- ===== src/Text/Search.antt =====
-- `strings.IndexByte`, `LastIndexByte`, `HasPrefix`, `Contains` and `Cut`; a result of -1 is `none`.
use opengpm.Base.{
  ℕ, zero, suc, [], ◌∷◌, ◌++◌, ◌≡◌, inl, inr, refl, ap, Bool, true, false, ◌&&◌, ◌||◌, ◌==◌, Option,
  none, some, Option-cases, if◌then◌else◌, arith, length, take, drop, take_append,
}
use opengpm.Text.{Bytes, Lacks}

abbrev next : Option ℕ → Option ℕ
next none = none
next (some i) = some (suc i)

unfoldable pub index_byte : Bytes → ℕ → Option ℕ
index_byte [] b = none
index_byte (c ∷ s) b = if c == b then some 0 else next (index_byte s b)

-- The later index wins; this position counts only if there is none behind it.
abbrev later : Bool → Option ℕ → Option ℕ
later here (some i) = some (suc i)
later here none = if here then some 0 else none

unfoldable pub last_index_byte : Bytes → ℕ → Option ℕ
last_index_byte [] b = none
last_index_byte (c ∷ s) b = later (c == b) (last_index_byte s b)

unfoldable pub has_prefix : Bytes → Bytes → Bool
has_prefix s [] = true
has_prefix [] (p ∷ ps) = false
has_prefix (c ∷ s) (p ∷ ps) = c == p && has_prefix s ps

-- `strings.Contains`
unfoldable pub contains : Bytes → Bytes → Bool
unfolding has_prefix
contains [] sub = has_prefix [] sub
contains (c ∷ s) sub = has_prefix (c ∷ s) sub || contains s sub

-- The first result of `strings.Cut` at one byte: all of `s` where there is none.
unfoldable pub cut_before : ℕ → Bytes → Bytes
cut_before b [] = []
cut_before b (c ∷ s) = if c == b then [] else c ∷ cut_before b s

-- `s` is cut at its first `b`, as `s[:i]` and `s[i+1:]`.
pub record CutAt (b : ℕ) (s : Bytes) (i : ℕ) : Type 0 where
  pub splits : s ≡ take i s ++ b ∷ drop (suc i) s
  pub before : Lacks b (take i s)

pub index_byte-some : (s : Bytes) (b : ℕ) {i : ℕ} → index_byte s b ≡ some i → CutAt b s i
unfolding index_byte
index_byte-some [] b h = cc
index_byte-some (c ∷ s) b {i = zero} h = record {
  splits = ground (arith, Option-cases (index_byte s b));
  before = tt;
}
index_byte-some (c ∷ s) b {i = suc i} h =
    let found : index_byte s b ≡ some i = ground (arith, Option-cases (index_byte s b)) in
    let rest = index_byte-some s b found in
    record { splits = ap (◌∷◌ c) rest.splits; before = (ground arith, rest.before) }

pub index_byte-none : (s : Bytes) (b : ℕ) → index_byte s b ≡ none → Lacks b s
unfolding index_byte
index_byte-none [] b h = tt
index_byte-none (c ∷ s) b h =
    (ground arith, index_byte-none s b (ground (arith, Option-cases (index_byte s b))))

pub index_byte-append :
    (p : Bytes) (b : ℕ) (rest : Bytes) → Lacks b p → index_byte (p ++ b ∷ rest) b ≡ some (length p)
unfolding index_byte
index_byte-append [] b rest h = ground arith
index_byte-append (c ∷ p) b rest h = ground (arith, index_byte-append p b rest h.1)

pub index_byte-Lacks : (s : Bytes) (b : ℕ) → Lacks b s → index_byte s b ≡ none
unfolding index_byte
index_byte-Lacks [] b h = refl
index_byte-Lacks (c ∷ s) b h = ground (arith, index_byte-Lacks s b h.1)

-- `s` is cut at its last `b`.
pub record LastCutAt (b : ℕ) (s : Bytes) (i : ℕ) : Type 0 where
  pub splits : s ≡ take i s ++ b ∷ drop (suc i) s
  pub after : Lacks b (drop (suc i) s)

pub last_index_byte-none : (s : Bytes) (b : ℕ) → last_index_byte s b ≡ none → Lacks b s
unfolding last_index_byte
last_index_byte-none [] b h = tt
last_index_byte-none (c ∷ s) b h = elim (Option-cases (last_index_byte s b)) [
  | inl e ↦ (ground arith, last_index_byte-none s b e)
  | inr (j, e) ↦ absurd (ground arith)
]

pub last_index_byte-some :
    (s : Bytes) (b : ℕ) {i : ℕ} → last_index_byte s b ≡ some i → LastCutAt b s i
unfolding last_index_byte
last_index_byte-some [] b h = cc
last_index_byte-some (c ∷ s) b {i = zero} h = elim (Option-cases (last_index_byte s b)) [
  | inl e ↦ record { splits = ground arith; after = last_index_byte-none s b e }
  | inr (j, e) ↦ absurd (ground arith)
]
last_index_byte-some (c ∷ s) b {i = suc i} h =
    let found : last_index_byte s b ≡ some i = ground (arith, Option-cases (last_index_byte s b)) in
    let rest = last_index_byte-some s b found in
    record { splits = ap (◌∷◌ c) rest.splits; after = rest.after }

pub last_index_byte-Lacks : (s : Bytes) (b : ℕ) → Lacks b s → last_index_byte s b ≡ none
unfolding last_index_byte
last_index_byte-Lacks [] b h = refl
last_index_byte-Lacks (c ∷ s) b h = ground (arith, last_index_byte-Lacks s b h.1)

pub last_index_byte-append :
    (p : Bytes) (b : ℕ) (rest : Bytes)
    → Lacks b rest
    → last_index_byte (p ++ b ∷ rest) b ≡ some (length p)
unfolding last_index_byte
last_index_byte-append [] b rest h = ground (arith, last_index_byte-Lacks rest b h)
last_index_byte-append (c ∷ p) b rest h = ground (arith, last_index_byte-append p b rest h)

-- The slices round an index that stands where `b` does.
pub take_before : (p : Bytes) (b : ℕ) (rest : Bytes) → take (length p) (p ++ b ∷ rest) ≡ p
take_before p b rest = take_append p (b ∷ rest)

pub drop_past : (p : Bytes) (b : ℕ) (rest : Bytes) → drop (suc (length p)) (p ++ b ∷ rest) ≡ rest
drop_past [] b rest = refl
drop_past (c ∷ p) b rest = drop_past p b rest

pub has_prefix-splits : (s p : Bytes) → has_prefix s p ≡ true → s ≡ p ++ drop (length p) s
unfolding has_prefix
has_prefix-splits s [] h = refl
has_prefix-splits [] (c ∷ p) h = cc
has_prefix-splits (d ∷ s) (c ∷ p) h = ground (arith, has_prefix-splits s p)

pub has_prefix-append : (p s : Bytes) → has_prefix (p ++ s) p ≡ true
unfolding has_prefix
has_prefix-append [] s = refl
has_prefix-append (c ∷ p) s = ground (arith, has_prefix-append p s)

contains-prefix : (p s : Bytes) → has_prefix s p ≡ true → contains s p ≡ true
unfolding contains
contains-prefix p [] h = h
contains-prefix p (c ∷ s) h = rw h refl

or_true : (b : Bool) → (b || true) ≡ true
or_true true = refl
or_true false = refl

pub contains-append : (p sub s : Bytes) → contains (p ++ (sub ++ s)) sub ≡ true
unfolding contains
contains-append [] sub s = contains-prefix sub (sub ++ s) (has_prefix-append sub s)
contains-append (c ∷ p) sub s =
    rw (contains-append p sub s) (or_true (has_prefix (c ∷ (p ++ (sub ++ s))) sub))
