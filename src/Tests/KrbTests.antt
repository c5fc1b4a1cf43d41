-- ===== src/Tests/KrbTests.antt =====
-- internal/transport/krb/krb.go on a keytab whose version is behind, with texts as gokrb5 words
-- them.
use mathlib.Core.List.{Permᴰ, reverse}
use mathlib.Core.List.Permᴰ as permutations
use opengpm.Base.{
  ℕ, ◌==◌, ◌&&◌, not, all, List, [], ◌∷◌, ◌≡◌, ◌≢◌, ◌↔◌, refl, Bool, false, true, Option, none,
  some, ok, arith,
}
use opengpm.Text.{Bytes, codes, Lacks}
use opengpm.Text.Search.{has_prefix, contains, cut_before}
use opengpm.Text.Decimal.{parse_uint, print_uint}
use opengpm.Transport.Krb.{
  clock_skew, bad_key, Code, skew, bad_key_ver, preauth_failed, bad_integrity, Refusal, Failure,
  unrecognised, Texts, kdc_codes, classify, classify_text, kdc_kvno, Attempt, Environment,
  from_keytab,
}
use opengpm.Transport.Krb.Miss.{keytab_miss, version_in_line, leading_digits}
use opengpm.Transport.Krb.Versions.{KvnoIn, kdc_kvno_sound, kdc_kvno-print_uint}
use opengpm.Transport.Krb.Causes.{
  AllNamed, IsUnknown, classify-order, classify_unrecognised_iff, classify_ambiguous,
}
use opengpm.Transport.Krb.Login.{Runs, from_keytab-Runs, IsRetry}
use opengpm.Transport.Krb.Attempts.{from_keytab_recovers}
use opengpm.Transport.Krb.{bare_name}

abbrev rendering : Code → Bytes
rendering skew = codes "KRB_AP_ERR_SKEW"
rendering bad_key_ver = codes "KRB_AP_ERR_BADKEYVER"
rendering preauth_failed = codes "KDC_ERR_PREAUTH_FAILED"
rendering bad_integrity = codes "KRB_AP_ERR_BAD_INTEGRITY"

abbrev gokrb5_texts : Texts
gokrb5_texts = record { lookup = rendering; networking_error = codes "Networking_Error" }

abbrev stale : Failure
stale = record {
  msg = codes "error: matching key not found in keytab. Looking for a realm: B kvno: 7 etype: 18";
  network = false;
}

abbrev skewed : Failure
skewed = record { msg = codes "KRB_AP_ERR_SKEW Clock skew too great"; network = false }

abbrev odd : Failure
odd = record { msg = codes "something else"; network = false }

abbrev both : Failure
both = record { msg = codes "KRB_AP_ERR_SKEW KDC_ERR_PREAUTH_FAILED"; network = false }

finds_version : kdc_kvno (some stale) ≡ some 7
unfolding kdc_kvno keytab_miss version_in_line leading_digits has_prefix parse_uint
finds_version = refl

kdc_kvno_sound_example : KvnoIn stale 7
kdc_kvno_sound_example = kdc_kvno_sound stale finds_version

and_true : (x y : Bool) → (x && y) ≡ true → (x ≡ true) × (y ≡ true)
and_true x y h = ground arith

-- A test of each byte.
lacks : (b : ℕ) (s : Bytes) → all (λ c. not (c == b)) s ≡ true → Lacks b s
lacks b [] h = tt
lacks b (c ∷ s) h =
    let (here, later) = and_true (not (c == b)) (all (λ x. not (x == b)) s) h in
    (ground arith, lacks b s later)

kdc_kvno-print_uint_example : kdc_kvno (some stale) ≡ some 7
unfolding print_uint
kdc_kvno-print_uint_example =
    kdc_kvno-print_uint stale (codes "error: ") (codes ". Looking for a realm: B ")
      (codes "etype: 18") b' ' 7 refl (lacks b'm' (codes "error: ") refl)
      (lacks 10 (codes ". Looking for a realm: B ") refl) refl
      (lacks b'k' (codes " etype: 18") refl) (omega arith) (omega arith)

abbrev skew_entry : Refusal
skew_entry = record { code = skew; sentinel = clock_skew }

abbrev preauth_entry : Refusal
preauth_entry = record { code = preauth_failed; sentinel = bad_key }

reordered : Permᴰ kdc_codes (reverse kdc_codes)
reordered = permutations.symm (permutations.reverse kdc_codes)

skew_named : AllNamed gokrb5_texts skewed clock_skew kdc_codes
unfolding kdc_codes contains has_prefix
skew_named = ((λ h. refl), ((λ h. cc), ((λ h. cc), ((λ h. cc), tt))))

classify-order_example :
    classify gokrb5_texts kdc_codes skewed ≡ classify gokrb5_texts (reverse kdc_codes) skewed
classify-order_example = classify-order gokrb5_texts skewed clock_skew reordered skew_named

classify_unrecognised_iff_example :
    (classify gokrb5_texts kdc_codes odd ≡ unrecognised odd) ↔ IsUnknown gokrb5_texts kdc_codes odd
classify_unrecognised_iff_example = classify_unrecognised_iff gokrb5_texts kdc_codes odd

odd_unrecognised : classify gokrb5_texts kdc_codes odd ≡ unrecognised odd
unfolding classify classify_text kdc_codes contains has_prefix keytab_miss version_in_line
odd_unrecognised = refl

classify_ambiguous_example :
    classify gokrb5_texts (skew_entry ∷ preauth_entry ∷ []) both
    ≢ classify gokrb5_texts (preauth_entry ∷ skew_entry ∷ []) both
unfolding contains has_prefix
classify_ambiguous_example =
    classify_ambiguous gokrb5_texts both skew_entry preauth_entry [] refl refl (λ e. cc)

-- The first login misses the key, and the second one, on relabelled entries, succeeds.
abbrev logs_in_again : List (Attempt Unit Unit) → Attempt Unit Unit → Option Failure
logs_in_again [] a = some stale
logs_in_again (b ∷ bs) a = none

abbrev host : Environment Unit Unit ℕ
host = record {
  texts = gokrb5_texts;
  refusals = kdc_codes;
  load_keytab = λ path. ok (record { body = tt; kvno = 3; kvno8 = 3 } ∷ []);
  krb5_config = [];
  load_config = λ path. ok tt;
  login = logs_in_again;
}

abbrev attempted : ℕ → Attempt Unit Unit
attempted v = record {
  name = codes "svc";
  realm = codes "GPLAB.LOCAL";
  entries = record { body = tt; kvno = v; kvno8 = v } ∷ [];
  conf = tt;
  disable_pa_fx_fast = true;
}

logs_in_relabelled :
    from_keytab host (codes "/kt") (codes "svc@GPLAB.LOCAL") (codes "GPLAB.LOCAL")
    ≡ record { result = ok (attempted 7); attempts = attempted 7 ∷ attempted 3 ∷ [] }
unfolding from_keytab kdc_kvno keytab_miss version_in_line leading_digits has_prefix parse_uint
    cut_before
logs_in_relabelled = refl

from_keytab-Runs_example :
    Runs host
      (codes "/kt")
      (codes "svc@GPLAB.LOCAL")
      (codes "GPLAB.LOCAL")
      (from_keytab host (codes "/kt") (codes "svc@GPLAB.LOCAL") (codes "GPLAB.LOCAL"))
from_keytab-Runs_example =
    from_keytab-Runs host (codes "/kt") (codes "svc@GPLAB.LOCAL") (codes "GPLAB.LOCAL")

from_keytab_recovers_example :
    (b : Attempt Unit Unit) × IsRetry 7 (attempted 3) b
    × ((from_keytab host (codes "/kt") (codes "svc@GPLAB.LOCAL") (codes "GPLAB.LOCAL")).result
        ≡ ok b)
unfolding print_uint cut_before bare_name
from_keytab_recovers_example =
    from_keytab_recovers host (codes "/kt") (codes "svc@GPLAB.LOCAL") (codes "GPLAB.LOCAL")
      (record { body = tt; kvno = 3; kvno8 = 3 } ∷ []) tt stale (codes "error: ")
      (codes ". Looking for a realm: B ") (codes "etype: 18") b' ' 7 refl refl refl refl
      (lacks b'm' (codes "error: ") refl) (lacks 10 (codes ". Looking for a realm: B ") refl) refl
      (lacks b'k' (codes " etype: 18") refl) (omega arith) (omega arith) (λ b again. refl)
