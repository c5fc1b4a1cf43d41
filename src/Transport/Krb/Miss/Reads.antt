-- ===== src/Transport/Krb/Miss/Reads.antt =====
-- What `keytabMiss` of internal/transport/krb/krb.go reads from a text that has a label.
use opengpm.Base.{
  ℕ, [], ◌∷◌, ◌++◌, ◌≡◌, ◌≢◌, refl, false, ==_ne, none, some, All-append, arith, All,
}
use opengpm.Text.{Bytes, Lacks}
use opengpm.Text.Search.{has_prefix}
use opengpm.Text.Decimal.{is_digit, IsDigit}
use opengpm.Transport.Krb.Miss.{
  needle, label, leading_digits, group, labelled, version_in_line, keytab_miss,
}

-- The digits that a non-digit ends are read whole.
leading_digits-append :
    (digits : Bytes) (c : ℕ) (after : Bytes)
    → All IsDigit digits
    → is_digit c ≡ false
    → leading_digits (digits ++ c ∷ after) ≡ digits
unfolding leading_digits
leading_digits-append [] c after ds stop = ground arith
leading_digits-append (d ∷ digits) c after ds stop =
    ground (arith, leading_digits-append digits c after ds.1 stop)

-- There is no label in a text without its first letter.
version_in_line-Lacks : (s : Bytes) → Lacks b'k' s → version_in_line s ≡ none
unfolding version_in_line labelled has_prefix
version_in_line-Lacks [] h = refl
version_in_line-Lacks (c ∷ s) h = ground (arith, version_in_line-Lacks s h.1)

group_nonempty : (digits : Bytes) → digits ≢ [] → group digits ≡ some digits
group_nonempty [] h = absurd (h refl)
group_nonempty (d ∷ digits) h = refl

digit-Lacks : (digits : Bytes) → All IsDigit digits → Lacks b'k' digits
digit-Lacks [] h = tt
digit-Lacks (d ∷ digits) h = (ground arith, digit-Lacks digits h.1)

pub version_in_line-label :
    (between digits : Bytes) (c : ℕ) (after : Bytes)
    → Lacks 10 between
    → All IsDigit digits
    → digits ≢ []
    → is_digit c ≡ false
    → Lacks b'k' (c ∷ after)
    → version_in_line (between ++ label ++ digits ++ c ∷ after) ≡ some digits
unfolding version_in_line
version_in_line-label [] digits c after line ds nonempty stop rest =
    rw
      (
        version_in_line-Lacks (digits ++ c ∷ after)
            (All-append (λ x. x ≢ b'k') digits (c ∷ after) (digit-Lacks digits ds) rest),
        leading_digits-append digits c after ds stop,
      )
      (group_nonempty digits nonempty)
version_in_line-label (d ∷ between) digits c after line ds nonempty stop rest =
    ground (arith, version_in_line-label between digits c after line.1 ds nonempty stop rest)

pub keytab_miss_text :
    (before rest : Bytes) {d : Bytes}
    → Lacks b'm' before
    → version_in_line rest ≡ some d
    → keytab_miss (before ++ needle ++ rest) ≡ some d
unfolding keytab_miss has_prefix
keytab_miss_text [] rest h found = rw found
keytab_miss_text (c ∷ before) rest h found =
    rw (==_ne c b'm' h.0) (keytab_miss_text before rest h.1 found)
