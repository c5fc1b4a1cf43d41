-- ===== src/Transport/Krb/Miss/Matches.antt =====
-- What `keytabMiss` of internal/transport/krb/krb.go finds is a match.
use mathlib.Core.Path.{subst}
use opengpm.Base.{
  [], ◌∷◌, ◌++◌, ◌≡◌, ◌≢◌, ◌⊎◌, inl, inr, refl, sym, ap, ◌∙◌, Bool, true, false, ◌==◌, Option, none,
  some, Bool-cases, if◌then◌else◌, arith, drop, All,
}
use opengpm.Text.{Bytes, Lacks}
use opengpm.Text.Search.{has_prefix, has_prefix-splits}
use opengpm.Text.Decimal.{is_digit, IsDigit}
use opengpm.Transport.Krb.Miss.{
  needle, label, leading_digits, group, or_else, labelled, version_in_line, keytab_miss,
}

-- No digit stands in front.
abbrev pub EndsDigits : Bytes → Type 0
EndsDigits [] = Unit
EndsDigits (c ∷ s) = is_digit c ≡ false

-- The text that the regular expression matches, and its group: a miss, then on the same line a
-- label and a run of digits that no further digit follows.
pub record MissAt (s digits : Bytes) : Type 0 where
  pub before : Bytes
  pub between : Bytes
  pub after : Bytes
  pub splits : s ≡ before ++ (needle ++ (between ++ label ++ digits ++ after))
  pub one_line : Lacks 10 between
  pub all_digits : All IsDigit digits
  pub nonempty : digits ≢ []
  pub stops : EndsDigits after

or_else-eq-some :
    (o p : Option Bytes) {d : Bytes} → or_else o p ≡ some d → (o ≡ some d) ⊎ (p ≡ some d)
or_else-eq-some none p h = inr h
or_else-eq-some (some e) p h = inl h

-- A test that lets an option through.
unless-eq-some :
    (b : Bool) (o : Option Bytes) {d : Bytes}
    → (if b then none else o) ≡ some d
    → (b ≡ false) × (o ≡ some d)
unless-eq-some true o h = cc
unless-eq-some false o h = (refl, h)

when-eq-some :
    (b : Bool) (o : Option Bytes) {d : Bytes}
    → (if b then o else none) ≡ some d
    → (b ≡ true) × (o ≡ some d)
when-eq-some true o h = (refl, h)
when-eq-some false o h = cc

group-eq-some : (s : Bytes) {d : Bytes} → group s ≡ some d → (s ≡ d) × (d ≢ [])
group-eq-some [] h = cc
group-eq-some (c ∷ s) h = (ground arith, λ e. cc)

record LeadingDigits (s d : Bytes) : Type 0 where
  after : Bytes
  splits : s ≡ d ++ after
  all_digits : All IsDigit d
  stops : EndsDigits after

leading_digits_sound : (s : Bytes) → LeadingDigits s (leading_digits s)
unfolding leading_digits
leading_digits_sound [] = record { after = []; splits = refl; all_digits = tt; stops = tt }
leading_digits_sound (c ∷ s) = elim (Bool-cases (is_digit c)) [
  | inl e ↦
      let rest = leading_digits_sound s in
      let digit : IsDigit c = ground arith in
      subst (λ b. LeadingDigits (c ∷ s) (if b then c ∷ leading_digits s else [])) (sym e)
        (record {
          after = rest.after;
          splits = ap (◌∷◌ c) rest.splits;
          all_digits = (digit, rest.all_digits);
          stops = rest.stops;
        })
  | inr e ↦
      subst (λ b. LeadingDigits (c ∷ s) (if b then c ∷ leading_digits s else [])) (sym e)
        (record { after = c ∷ s; splits = refl; all_digits = tt; stops = e })
]

record LabelledAt (s between d : Bytes) : Type 0 where
  after : Bytes
  splits : s ≡ between ++ label ++ d ++ after
  all_digits : All IsDigit d
  nonempty : d ≢ []
  stops : EndsDigits after

labelled_sound : (s : Bytes) {d : Bytes} → labelled s ≡ some d → LabelledAt s [] d
unfolding labelled
labelled_sound s {d} h =
    let (front, grouped) =
      when-eq-some (has_prefix s label) (group (leading_digits (drop 6 s))) h in
    let (same, nonempty) = group-eq-some (leading_digits (drop 6 s)) grouped in
    let digits = subst (LeadingDigits (drop 6 s)) same (leading_digits_sound (drop 6 s)) in
    record {
      after = digits.after;
      splits = has_prefix-splits s label front ∙ ap (λ r. label ++ r) digits.splits;
      all_digits = digits.all_digits;
      nonempty = nonempty;
      stops = digits.stops;
    }

version_in_line_sound :
    (s : Bytes) {d : Bytes}
    → version_in_line s ≡ some d
    → (between : Bytes) × Lacks 10 between × LabelledAt s between d
unfolding version_in_line
version_in_line_sound [] h = cc
version_in_line_sound (c ∷ s) {d} h =
    elim (or_else-eq-some (if c == 10 then none else version_in_line s) (labelled (c ∷ s)) h) [
      | inl e ↦
          let (other, found) = unless-eq-some (c == 10) (version_in_line s) e in
          let (between, one_line, rest) = version_in_line_sound s found in
          (
            c ∷ between,
            (ground arith, one_line),
            record {
              after = rest.after;
              splits = ap (◌∷◌ c) rest.splits;
              all_digits = rest.all_digits;
              nonempty = rest.nonempty;
              stops = rest.stops;
            },
          )
      | inr e ↦ ([], tt, labelled_sound (c ∷ s) e)
    ]

pub keytab_miss_sound : (s : Bytes) {d : Bytes} → keytab_miss s ≡ some d → MissAt s d
unfolding keytab_miss
keytab_miss_sound [] h = cc
keytab_miss_sound (c ∷ s) {d} h =
    elim (or_else-eq-some
      (if has_prefix (c ∷ s) needle then version_in_line (drop 32 (c ∷ s)) else none)
      (keytab_miss s) h) [
        | inl e ↦
            let (front, found) =
              when-eq-some (has_prefix (c ∷ s) needle) (version_in_line (drop 32 (c ∷ s))) e in
            let (between, one_line, rest) = version_in_line_sound (drop 32 (c ∷ s)) found in
            record {
              before = [];
              between = between;
              after = rest.after;
              splits = has_prefix-splits (c ∷ s) needle front ∙ ap (λ r. needle ++ r) rest.splits;
              one_line = one_line;
              all_digits = rest.all_digits;
              nonempty = rest.nonempty;
              stops = rest.stops;
            }
        | inr e ↦
            let rest = keytab_miss_sound s e in
            record {
              before = c ∷ rest.before;
              between = rest.between;
              after = rest.after;
              splits = ap (◌∷◌ c) rest.splits;
              one_line = rest.one_line;
              all_digits = rest.all_digits;
              nonempty = rest.nonempty;
              stops = rest.stops;
            }
      ]
