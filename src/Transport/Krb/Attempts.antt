-- ===== src/Transport/Krb/Attempts.antt =====
-- The attempts of `FromKeytab` in internal/transport/krb/krb.go: whom they are for, and that a stale
-- label is recovered from.
use mathlib.Core.Path.{subst}
use opengpm.Base.{
  ok-injective, false, ℕ, ◌≤◌, ◌<◌, List, [], ◌∷◌, ◌++◌, ◌≡◌, refl, sym, ap, ◌∙◌, none, some, ok,
  All,
}
use opengpm.Text.{Bytes, Lacks}
use opengpm.Text.Decimal.{max_u32, is_digit, print_uint}
use opengpm.Transport.Krb.{
  Failure, kdc_kvno, KeytabEntry, Attempt, Environment, Outcome, bare_name, conf_path, from_keytab,
}
use opengpm.Transport.Krb.Miss.{needle, label}
use opengpm.Transport.Krb.Versions.{kdc_kvno-print_uint}
use opengpm.Transport.Krb.Login.{
  IsRetry, ReturnedBy, LogsIn, once, twice, Runs, no_keytab, no_config, logs_in, first_attempt,
  from_keytab-Runs,
}

module _ {R C E : Type 0} (env : Environment R C E) where
  -- An attempt for this principal and realm, under the configuration that is loaded.
  pub record IsAttemptFor (principal realm : Bytes) (a : Attempt R C) : Type 0 where
    pub for_name : a.name ≡ bare_name principal
    pub for_realm : a.realm ≡ realm
    pub loaded : env.load_config (conf_path env.krb5_config) ≡ ok a.conf

  LogsIn-IsAttemptFor :
      (principal realm : Bytes) {a : Attempt R C} {o : Outcome R C E}
      → LogsIn env a o
      → IsAttemptFor principal realm a
      → All (IsAttemptFor principal realm) o.attempts
  LogsIn-IsAttemptFor principal realm (once _ _) h = (h, tt)
  LogsIn-IsAttemptFor principal realm (twice v b _ again _) h = (
    record {
      for_name = again.same_name ∙ h.for_name;
      for_realm = again.same_realm ∙ h.for_realm;
      loaded = h.loaded ∙ ap ok (sym again.same_conf);
    },
    (h, tt),
  )

  Runs-IsAttemptFor :
      {path principal realm : Bytes} {o : Outcome R C E}
      → Runs env path principal realm o
      → All (IsAttemptFor principal realm) o.attempts
  Runs-IsAttemptFor (no_keytab _) = tt
  Runs-IsAttemptFor (no_config _ _) = tt
  Runs-IsAttemptFor {principal = principal} {realm = realm} (logs_in _ conf logs) =
      LogsIn-IsAttemptFor principal realm logs
        (record { for_name = refl; for_realm = refl; loaded = conf })

  -- Every attempt of `FromKeytab` is for its principal and realm, under the loaded configuration.
  pub from_keytab-IsAttemptFor :
      (path principal realm : Bytes)
      → All (IsAttemptFor principal realm) (from_keytab env path principal realm).attempts
  from_keytab-IsAttemptFor path principal realm =
      Runs-IsAttemptFor (from_keytab-Runs env path principal realm)

  Runs-LogsIn :
      {path principal realm : Bytes} {es : List (KeytabEntry R)} {conf : C} {o : Outcome R C E}
      → Runs env path principal realm o
      → env.load_keytab path ≡ ok es
      → env.load_config (conf_path env.krb5_config) ≡ ok conf
      → LogsIn env (first_attempt env principal realm es conf) o
  Runs-LogsIn (no_keytab missing) loaded read = absurd (cc)
  Runs-LogsIn (no_config _ missing) loaded read = absurd (cc)
  Runs-LogsIn {principal = principal} {realm = realm} {es = es} {conf = conf} {o = o}
        (logs_in {es = es'} {conf = conf'} loaded' read' logs) loaded read =
      let same_es : es' ≡ es = ok-injective (sym loaded' ∙ loaded) in
      let same_conf : conf' ≡ conf = ok-injective (sym read' ∙ read) in
      subst (λ x. LogsIn env (first_attempt env principal realm es x) o) same_conf
        (subst (λ x. LogsIn env (first_attempt env principal realm x conf') o) same_es logs)

  LogsIn-recovers :
      (v : ℕ) {a : Attempt R C} {o : Outcome R C E}
      → LogsIn env a o
      → kdc_kvno (env.login [] a) ≡ some v
      → ((b : Attempt R C) → IsRetry v a b → env.login (a ∷ []) b ≡ none)
      → (b : Attempt R C) × IsRetry v a b × (o.result ≡ ok b)
  unfolding ReturnedBy
  LogsIn-recovers v (once no_version _) h succeeds = absurd (cc)
  LogsIn-recovers v {a = a} (twice v' b {r = r} found again back) h succeeds =
      let same : v' ≡ v = cc in
      let again' = subst (λ n. IsRetry n a b) same again in
      (b, again', subst (λ o. ReturnedBy env b o r) (succeeds b again') back)

  -- A stale label is recovered from. Where the keytab and the configuration load, the first login
  -- fails with a report of a missing key that prints version `v`, and a login with every entry of
  -- the keytab relabelled to `v` succeeds, `FromKeytab` returns the client of that second login.
  pub from_keytab_recovers :
      (path principal realm : Bytes) (es : List (KeytabEntry R)) (conf : C) (f : Failure)
      (front between after : Bytes) (c v : ℕ)
      → env.load_keytab path ≡ ok es
      → env.load_config (conf_path env.krb5_config) ≡ ok conf
      → env.login [] (first_attempt env principal realm es conf) ≡ some f
      → f.msg ≡ front ++ needle ++ (between ++ label ++ print_uint 10 v ++ c ∷ after)
      → Lacks b'm' front
      → Lacks 10 between
      → is_digit c ≡ false
      → Lacks b'k' (c ∷ after)
      → 0 < v
      → v ≤ max_u32
      → ((b : Attempt R C)
          → IsRetry v (first_attempt env principal realm es conf) b
          → env.login (first_attempt env principal realm es conf ∷ []) b ≡ none)
      → (b : Attempt R C) × IsRetry v (first_attempt env principal realm es conf) b
        × ((from_keytab env path principal realm).result ≡ ok b)
  from_keytab_recovers path principal realm es conf f front between after c v loaded read failed
        text first line stop rest positive fits succeeds =
      LogsIn-recovers v (Runs-LogsIn (from_keytab-Runs env path principal realm) loaded read)
        (ap kdc_kvno failed
          ∙ kdc_kvno-print_uint f front between after c v text first line stop rest positive fits)
        succeeds
