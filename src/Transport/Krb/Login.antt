-- ===== src/Transport/Krb/Login.antt =====
-- `FromKeytab` of internal/transport/krb/krb.go: its attempts to log in, and what it returns.
use mathlib.Core.Path.{subst}
use opengpm.Base.{
  ℕ, ◌-◌, ◌^◌, ◌≤◌, ◌<◌, List, [], ◌∷◌, ◌≡◌, inl, inr, refl, sym, true, ◌&&◌, Option, none, some,
  Result, Result-cases, ok, err, ltb, leb, arith,
}
use opengpm.Text.{Bytes}
use opengpm.Text.Decimal.{max_u32}
use opengpm.Transport.Krb.{
  Failure, classify, kdc_kvno, KeytabEntry, relabel_entry, relabel, Attempt, KrbError, login_failed,
  Environment, Outcome, reading_keytab, reading_config, finish, retried, retry, log_in, bare_name,
  conf_path, with_config, with_keytab, from_keytab,
}
use opengpm.Transport.Krb.Versions.{kdc_kvno_sound}

-- The entry that a relabelled entry is: the rest of it as it was, its version `v`, and the old
-- one-byte version `v` where a byte can hold it.
pub record RelabelledTo {R : Type 0} (v : ℕ) (e e' : KeytabEntry R) : Type 0 where
  pub same_body : e'.body ≡ e.body
  pub kvno_set : e'.kvno ≡ v
  pub kvno8_set : v ≤ 255 → e'.kvno8 ≡ v
  pub kvno8_kept : 255 < v → e'.kvno8 ≡ e.kvno8

-- Entry by entry.
unfoldable pub AllRelabelled :
    {R : Type 0} → ℕ → List (KeytabEntry R) → List (KeytabEntry R) → Type 0
AllRelabelled v [] [] = Unit
AllRelabelled v (e ∷ es) (e' ∷ es') = RelabelledTo v e e' × AllRelabelled v es es'
AllRelabelled v _ _ = ⊥

relabel_entry-RelabelledTo :
    {R : Type 0} (v : ℕ) (e : KeytabEntry R) → v ≤ max_u32 → RelabelledTo v e (relabel_entry v e)
unfolding relabel_entry
relabel_entry-RelabelledTo v e fits = record {
  same_body = refl;
  kvno_set = omega arith;
  kvno8_set = λ h. ground arith;
  kvno8_kept = λ h. ground arith;
}

relabel-AllRelabelled :
    {R : Type 0} (v : ℕ) (es : List (KeytabEntry R))
    → v ≤ max_u32
    → AllRelabelled v es (relabel v es)
unfolding relabel AllRelabelled
relabel-AllRelabelled v [] fits = tt
relabel-AllRelabelled v (e ∷ es) fits =
    (relabel_entry-RelabelledTo v e fits, relabel-AllRelabelled v es fits)

-- The second attempt differs from the first in the versions of its entries only.
pub record IsRetry {R C : Type 0} (v : ℕ) (a b : Attempt R C) : Type 0 where
  pub same_name : b.name ≡ a.name
  pub same_realm : b.realm ≡ a.realm
  pub same_conf : b.conf ≡ a.conf
  pub no_fast : b.disable_pa_fx_fast ≡ a.disable_pa_fx_fast
  pub entries_relabelled : AllRelabelled v a.entries b.entries

module _ {R C E : Type 0} (env : Environment R C E) where
  retried-IsRetry : (v : ℕ) (a : Attempt R C) → v ≤ max_u32 → IsRetry v a (retried env v a)
  unfolding retried
  retried-IsRetry v a fits = record {
    same_name = refl;
    same_realm = refl;
    same_conf = refl;
    no_fast = refl;
    entries_relabelled = relabel-AllRelabelled v a.entries fits;
  }

  -- What a login returns when `f` is the error of its last attempt `a`.
  unfoldable pub ReturnedBy :
      Attempt R C → Option Failure → Result (KrbError E) (Attempt R C) → Type 0
  ReturnedBy a none r = r ≡ ok a
  ReturnedBy a (some f) r = r ≡ err (login_failed (classify env.texts env.refusals f))

  -- The first attempt is the last, or a second one follows it.
  pub data LogsIn (a : Attempt R C) : Outcome R C E → Type 0 where
    once :
        {r : Result (KrbError E) (Attempt R C)}
        → kdc_kvno (env.login [] a) ≡ none
        → ReturnedBy a (env.login [] a) r
        → LogsIn a (record { result = r; attempts = a ∷ [] })
    twice :
        (v : ℕ) (b : Attempt R C) {r : Result (KrbError E) (Attempt R C)}
        → kdc_kvno (env.login [] a) ≡ some v
        → IsRetry v a b
        → ReturnedBy b (env.login (a ∷ []) b) r
        → LogsIn a (record { result = r; attempts = b ∷ a ∷ [] })

  finish-ReturnedBy :
      (a : Attempt R C) (made : List (Attempt R C)) (failed : Option Failure)
      → (r : Result (KrbError E) (Attempt R C)) × ReturnedBy a failed r
        × (finish env a made failed ≡ record { result = r; attempts = made })
  unfolding finish ReturnedBy
  finish-ReturnedBy a made none = (ok a, refl, refl)
  finish-ReturnedBy a made (some f) =
      (err (login_failed (classify env.texts env.refusals f)), refl, refl)

  retry-LogsIn :
      (a : Attempt R C) (o : Option ℕ)
      → kdc_kvno (env.login [] a) ≡ o
      → ((v : ℕ) → o ≡ some v → (0 < v) × (v ≤ max_u32))
      → LogsIn a (retry env a (env.login [] a) o)
  unfolding retry
  retry-LogsIn a none e bound =
      let (r, back, same) = finish-ReturnedBy a (a ∷ []) (env.login [] a) in
      subst (LogsIn a) (sym same) (once e back)
  retry-LogsIn a (some v) e bound =
      let (positive, fits) = bound v refl in
      let guard : (ltb 0 v && leb v (2 ^ 32 - 1)) ≡ true = ground arith in
      let b = retried env v a in
      let (r, back, same) = finish-ReturnedBy b (b ∷ a ∷ []) (env.login (a ∷ []) b) in
      rw guard (subst (LogsIn a) (sym same) (twice v b e (retried-IsRetry v a fits) back))

  kdc_kvno-bound :
      (failed : Option Failure) (v : ℕ) → kdc_kvno failed ≡ some v → (0 < v) × (v ≤ max_u32)
  unfolding kdc_kvno
  kdc_kvno-bound none v h = cc
  kdc_kvno-bound (some f) v h = let found = kdc_kvno_sound f h in (found.positive, found.fits)

  log_in-LogsIn : (a : Attempt R C) → LogsIn a (log_in env a)
  unfolding log_in
  log_in-LogsIn a =
      retry-LogsIn a (kdc_kvno (env.login [] a)) refl (kdc_kvno-bound (env.login [] a))

  -- The first attempt that `FromKeytab` makes.
  abbrev pub first_attempt : Bytes → Bytes → List (KeytabEntry R) → C → Attempt R C
  first_attempt principal realm es conf = record {
    name = bare_name principal;
    realm = realm;
    entries = es;
    conf = conf;
    disable_pa_fx_fast = true;
  }

  -- The ways in which a call of `FromKeytab` ends.
  pub data Runs (path principal realm : Bytes) : Outcome R C E → Type 0 where
    no_keytab :
        {e : E}
        → env.load_keytab path ≡ err e
        → Runs path principal realm (record { result = err (reading_keytab path e); attempts = [] })
    no_config :
        {es : List (KeytabEntry R)} {e : E}
        → env.load_keytab path ≡ ok es
        → env.load_config (conf_path env.krb5_config) ≡ err e
        → Runs path principal realm
            (record { result = err (reading_config (conf_path env.krb5_config) e); attempts = [] })
    logs_in :
        {es : List (KeytabEntry R)} {conf : C} {o : Outcome R C E}
        → env.load_keytab path ≡ ok es
        → env.load_config (conf_path env.krb5_config) ≡ ok conf
        → LogsIn (first_attempt principal realm es conf) o
        → Runs path principal realm o

  with_keytab-Runs :
      (path principal realm : Bytes) (es : Result E (List (KeytabEntry R)))
      → env.load_keytab path ≡ es
      → Runs path principal realm (with_keytab env path principal realm es)
  unfolding with_keytab
  with_keytab-Runs path principal realm (err e) loaded = no_keytab loaded
  with_keytab-Runs path principal realm (ok es) loaded =
      elim (Result-cases (env.load_config (conf_path env.krb5_config))) [
        | inl (conf, read) ↦
            let a = first_attempt principal realm es conf in
            subst
              (λ c.
                Runs path principal realm
                  (with_config env principal realm es (conf_path env.krb5_config) c))
              (sym read) (logs_in loaded read (log_in-LogsIn a))
        | inr (e, read) ↦
            subst
              (λ c.
                Runs path principal realm
                  (with_config env principal realm es (conf_path env.krb5_config) c))
              (sym read) (no_config loaded read)
      ]

  -- `FromKeytab` tries to log in only if the keytab and the configuration load. It tries a second
  -- time exactly if the first error reports a key version; the second attempt then differs in the
  -- versions of the keytab's entries alone, which are all the reported one. There is no third. The
  -- last attempt decides: its client is returned if it succeeds, and else its error, classified.
  pub from_keytab-Runs :
      (path principal realm : Bytes)
      → Runs path principal realm (from_keytab env path principal realm)
  unfolding from_keytab
  from_keytab-Runs path principal realm =
      with_keytab-Runs path principal realm (env.load_keytab path) refl
