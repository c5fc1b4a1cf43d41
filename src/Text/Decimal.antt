-- ===== src/Text/Decimal.antt =====
-- `strconv.ParseUint(s, 10, bits)` with `max_val` = 2^bits - 1, and the value that digits spell.
use mathlib.Core.List.{concat-ne-nil, cons-ne-nil}
use native.Mathlib.Nat.{pow-suc}
use opengpm.Base.{
  ℕ, zero, suc, ◌+◌, ◌-◌, ◌*◌, ◌/◌, ◌%◌, ◌^◌, ◌≤◌, ◌<◌, [], ◌∷◌, ◌++◌, ◌≡◌, ◌≢◌, refl, Bool, not,
  ◌&&◌, ◌||◌, ltb, leb, if◌then◌else◌, arith, Result, ok, err, All, All-append,
}
use opengpm.Text.{Bytes}

-- `strconv.ErrSyntax` and `strconv.ErrRange`.
pub data NumError : Type 0 where
  syntax range : NumError

abbrev pub max_u32 : ℕ
max_u32 = 2 ^ 32 - 1

-- The smallest number such that ten times it overflows a uint64.
abbrev cutoff : ℕ
cutoff = (2 ^ 64 - 1) / 10 + 1

abbrev pub is_digit : ℕ → Bool
is_digit c = leb b'0' c && leb c b'9'

-- The loop over the digits. A round multiplies and adds in uint64.
digits_loop : ℕ → Bytes → ℕ → Result NumError ℕ
digits_loop max_val [] n = ok n
digits_loop max_val (c ∷ s) n =
    let m = n * 10 % 2 ^ 64 in
    let n1 = (m + (c - b'0')) % 2 ^ 64 in
    if not (is_digit c)
    then err syntax
    else if leb cutoff n
    then err range
    else if ltb n1 m || ltb max_val n1
    then err range
    else digits_loop max_val s n1

unfoldable pub parse_uint : ℕ → Bytes → Result NumError ℕ
unfolding digits_loop
parse_uint max_val [] = err syntax
parse_uint max_val (c ∷ s) = digits_loop max_val (c ∷ s) 0

abbrev pub IsDigit : ℕ → Type 0
IsDigit c = (b'0' ≤ c) × (c ≤ b'9')

-- The number that the digits spell behind `n`, with no bound.
abbrev pub value : ℕ → Bytes → ℕ
value n [] = n
value n (c ∷ s) = value (n * 10 + (c - b'0')) s

value_grows : (n : ℕ) (digits : Bytes) → n ≤ value n digits
value_grows n [] = omega arith
value_grows n (c ∷ digits) = let m = n * 10 + (c - b'0') in omega (arith, value_grows m digits)

module _ (max_val : ℕ) (small : max_val ≤ max_u32) where
  digits_loop_sound :
      (s : Bytes) (n : ℕ) {r : ℕ}
      → n ≤ max_val
      → digits_loop max_val s n ≡ ok r
      → All IsDigit s × (r ≡ value n s) × (r ≤ max_val)
  unfolding digits_loop
  digits_loop_sound [] n fits h = ground arith
  digits_loop_sound (c ∷ s) n {r} fits h =
      ground (arith, digits_loop_sound s (n * 10 + (c - b'0')) {r = r})

  digits_loop_complete :
      (s : Bytes) (n : ℕ)
      → All IsDigit s
      → value n s ≤ max_val
      → digits_loop max_val s n ≡ ok (value n s)
  unfolding digits_loop
  digits_loop_complete [] n ds fits = refl
  digits_loop_complete (c ∷ s) n (d, ds) fits =
      let m = n * 10 + (c - b'0') in
      ground (arith, value_grows m s, digits_loop_complete s m ds fits)

  pub parse_uint_sound :
      (s : Bytes) {r : ℕ}
      → parse_uint max_val s ≡ ok r
      → (s ≢ []) × All IsDigit s × (r ≡ value 0 s) × (r ≤ max_val)
  unfolding parse_uint
  parse_uint_sound [] h = cc
  parse_uint_sound (c ∷ s) {r} h =
      let (ds, exact, fits) = digits_loop_sound (c ∷ s) 0 {r = r} (omega arith) h in
      (cons-ne-nil c s, ds, exact, fits)

  pub parse_uint_complete :
      (s : Bytes)
      → s ≢ []
      → All IsDigit s
      → value 0 s ≤ max_val
      → parse_uint max_val s ≡ ok (value 0 s)
  unfolding parse_uint
  parse_uint_complete [] h ds fits = absurd (h refl)
  parse_uint_complete (c ∷ s) h ds fits = digits_loop_complete (c ∷ s) 0 ds fits

-- The decimal print of a number below 10^f, for the round trips.
unfoldable pub print_uint : ℕ → ℕ → Bytes
print_uint zero n = []
print_uint (suc f) n =
    let front = print_uint f (n / 10) in
    if ltb n 10 then (b'0' + n) ∷ [] else front ++ (b'0' + n % 10) ∷ []

value-append : (s t : Bytes) (n : ℕ) → value n (s ++ t) ≡ value (value n s) t
value-append [] t n = refl
value-append (c ∷ s) t n = value-append s t (n * 10 + (c - b'0'))

pub value-print_uint : (f n : ℕ) → n < 10 ^ f → value 0 (print_uint f n) ≡ n
unfolding print_uint
value-print_uint zero n h = omega arith
value-print_uint (suc f) n h =
    let small : n / 10 < 10 ^ f = omega (arith, pow-suc 10 f) in
    ground (
      arith,
      value-print_uint f (n / 10) small,
      value-append (print_uint f (n / 10)) ((b'0' + n % 10) ∷ []) 0,
    )

pub print_uint-IsDigit : (f n : ℕ) → All IsDigit (print_uint f n)
unfolding print_uint
print_uint-IsDigit zero n = tt
print_uint-IsDigit (suc f) n = ground (
  arith,
  print_uint-IsDigit f (n / 10),
  All-append IsDigit (print_uint f (n / 10)) ((b'0' + n % 10) ∷ []),
)

pub print_uint-ne-nil : (f n : ℕ) → print_uint (suc f) n ≢ []
unfolding print_uint
print_uint-ne-nil f n = ground (arith, concat-ne-nil (b'0' + n % 10) (print_uint f (n / 10)))
