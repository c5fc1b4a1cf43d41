-- ===== src/Transport/Krb/Versions.antt =====
-- `kdcKVNO` of internal/transport/krb/krb.go: the key version is read off the text of a failure.
use mathlib.Core.Path.{subst}
use opengpm.Base.{
  ℕ, ◌≤◌, ◌<◌, ◌∷◌, ◌++◌, ◌≡◌, inl, inr, false, some, Option-cases, Result, arith, ok, err,
}
use opengpm.Text.{Bytes, Lacks}
use opengpm.Text.Decimal.{
  NumError, max_u32, is_digit, value, parse_uint, parse_uint_sound, parse_uint_complete, print_uint,
  value-print_uint, print_uint-IsDigit, print_uint-ne-nil,
}
use opengpm.Transport.Krb.{Failure, kdc_kvno, version_of, nonzero}
use opengpm.Transport.Krb.Miss.{needle, label, keytab_miss}
use opengpm.Transport.Krb.Miss.Matches.{MissAt, keytab_miss_sound}
use opengpm.Transport.Krb.Miss.Reads.{version_in_line-label, keytab_miss_text}

-- What `kdcKVNO` finds: a version from 1 to 2^32 - 1 that the text of the failure spells.
pub record KvnoIn (f : Failure) (v : ℕ) : Type 0 where
  pub digits : Bytes
  pub miss : MissAt f.msg digits
  pub spelled : v ≡ value 0 digits
  pub positive : 0 < v
  pub fits : v ≤ max_u32

nonzero-eq-some : (r : Result NumError ℕ) {v : ℕ} → nonzero r ≡ some v → (r ≡ ok v) × (0 < v)
unfolding nonzero
nonzero-eq-some (ok v) h = ground arith
nonzero-eq-some (err e) h = cc

-- A version that `kdcKVNO` finds is from 1 to 2^32 - 1, and a run of digits spells it that stands in
-- the text of the failure behind a report of a missing key and a label on the same line; no further
-- digit follows the run.
pub kdc_kvno_sound : (f : Failure) {v : ℕ} → kdc_kvno (some f) ≡ some v → KvnoIn f v
unfolding kdc_kvno version_of
kdc_kvno_sound f {v} h = elim (Option-cases (keytab_miss f.msg)) [
  | inl e ↦ absurd (cc)
  | inr (digits, e) ↦
      let parsed : nonzero (parse_uint max_u32 digits) ≡ some v =
        subst (λ m. version_of m ≡ some v) e h in
      let (number, positive) = nonzero-eq-some (parse_uint max_u32 digits) parsed in
      let (_, _, spelled, fits) = parse_uint_sound max_u32 (omega arith) digits number in
      record {
        digits = digits;
        miss = keytab_miss_sound f.msg e;
        spelled = spelled;
        positive = positive;
        fits = fits;
      }
]

nonzero_pos : (v : ℕ) → 0 < v → nonzero (ok v) ≡ some v
unfolding nonzero
nonzero_pos v h = ground arith

-- From a text in which gokrb5 reports a missing key, `kdcKVNO` reads exactly the version printed
-- there: the text before the report has no `m`, what stands between the report and the label is on
-- one line, and what follows the digits starts with none and has no `k`.
pub kdc_kvno-print_uint :
    (f : Failure) (before between after : Bytes) (c v : ℕ)
    → f.msg ≡ before ++ needle ++ (between ++ label ++ print_uint 10 v ++ c ∷ after)
    → Lacks b'm' before
    → Lacks 10 between
    → is_digit c ≡ false
    → Lacks b'k' (c ∷ after)
    → 0 < v
    → v ≤ max_u32
    → kdc_kvno (some f) ≡ some v
unfolding kdc_kvno version_of
kdc_kvno-print_uint f before between after c v text first line stop rest positive fits =
    let digits = print_uint 10 v in
    let exact = value-print_uint 10 v (omega arith) in
    let nonempty = print_uint-ne-nil 9 v in
    let ds = print_uint-IsDigit 10 v in
    let found = version_in_line-label between digits c after line ds nonempty stop rest in
    let parsed =
      parse_uint_complete max_u32 (omega arith) digits nonempty ds (omega (arith, exact)) in
    rw
      (
        text,
        keytab_miss_text before (between ++ label ++ digits ++ c ∷ after) first found,
        parsed,
        exact,
      )
      (nonzero_pos v positive)
