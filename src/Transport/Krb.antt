-- ===== src/Transport/Krb.antt =====
-- internal/transport/krb/krb.go: a Kerberos client from a keytab.
-- gokrb5 is a parameter: its keytab and configuration loaders, its renderings of the KDC's error
-- codes, and its login, which sees the attempts made before it.
pub mod Miss
pub mod Versions
pub mod Causes
pub mod Login
pub mod Attempts
use opengpm.Base.{
  ℕ, ◌-◌, ◌%◌, ◌^◌, List, [], ◌∷◌, map, Bool, true, ◌&&◌, ◌||◌, ◌==◌, ltb, leb, if◌then◌else◌,
  Option, none, some, Result, ok, err,
}
use opengpm.Text.{Bytes, codes, equal}
use opengpm.Text.Search.{contains, cut_before}
use opengpm.Text.Decimal.{NumError, max_u32, parse_uint}
use opengpm.Transport.Krb.Miss.{needle, keytab_miss}

-- The package's sentinel errors.
pub data Sentinel : Type 0 where
  clock_skew : Sentinel
  kdc_unreachable : Sentinel
  bad_key : Sentinel
  stale_kvno : Sentinel

-- The error codes that `kdcCodes` has for its keys.
pub data Code : Type 0 where
  skew : Code
  bad_key_ver : Code
  preauth_failed : Code
  bad_integrity : Code

-- An entry of the map.
pub record Refusal : Type 0 where
  pub code : Code
  pub sentinel : Sentinel

unfoldable pub kdc_codes : List Refusal
kdc_codes =
    record { code = skew; sentinel = clock_skew }
    ∷ record { code = bad_key_ver; sentinel = stale_kvno }
    ∷ record { code = preauth_failed; sentinel = bad_key }
    ∷ record { code = bad_integrity; sentinel = bad_key }
    ∷ []

-- A gokrb5 error, by what this package sees of it: its text, and whether `errors.As` finds a
-- `net.Error` in it.
pub record Failure : Type 0 where
  pub msg : Bytes
  pub network : Bool

-- What `classify` returns for an error: it wraps the error behind a sentinel, or alone.
pub data Classified : Type 0 where
  known : Sentinel → Failure → Classified
  unrecognised : Failure → Classified

-- What the package takes from gokrb5's texts: `errorcode.Lookup` and `krberror.NetworkingError`.
pub record Texts : Type 0 where
  pub lookup : Code → Bytes
  pub networking_error : Bytes

-- The `switch` of `classify`.
unfoldable pub classify_text : Texts → Failure → Classified
unfolding keytab_miss contains
classify_text texts f = elim (keytab_miss f.msg) [
  | some d ↦ known stale_kvno f
  | none ↦
      if contains f.msg needle
      then known bad_key f
      else if contains f.msg (codes "integrity verification failed")
      then known bad_key f
      else if f.network || contains f.msg texts.networking_error
      then known kdc_unreachable f
      else unrecognised f
]

-- `classify` of an error, where the loop over the map meets its entries in the order of the list
-- (Go leaves that order open).
unfoldable pub classify : Texts → List Refusal → Failure → Classified
unfolding classify_text contains
classify texts [] f = classify_text texts f
classify texts (r ∷ rs) f =
    let rest = classify texts rs f in
    if contains f.msg (texts.lookup r.code) then known r.sentinel f else rest

unfoldable pub nonzero : Result NumError ℕ → Option ℕ
nonzero (ok v) = if v == 0 then none else some v
nonzero (err _) = none

unfoldable pub version_of : Option Bytes → Option ℕ
unfolding nonzero parse_uint
version_of none = none
version_of (some digits) = nonzero (parse_uint max_u32 digits)

-- `kdcKVNO`; no error is `none`.
unfoldable pub kdc_kvno : Option Failure → Option ℕ
unfolding version_of keytab_miss
kdc_kvno none = none
kdc_kvno (some f) = version_of (keytab_miss f.msg)

-- An entry of gokrb5's keytab. This package writes `kvno` (uint32) and `kvno8` (uint8), and the
-- rest of the entry, `R`, is its principal, key and etype.
pub record KeytabEntry (R : Type 0) : Type 0 where
  pub body : R
  pub kvno : ℕ
  pub kvno8 : ℕ

-- The loop over the entries, its body written with the conversions `uint32` and `uint8`.
unfoldable pub relabel_entry : {R : Type 0} → ℕ → KeytabEntry R → KeytabEntry R
relabel_entry v e = record {
  body = e.body;
  kvno = v % 2 ^ 32;
  kvno8 = if leb v 255 then v % 2 ^ 8 else e.kvno8;
}

unfoldable pub relabel : {R : Type 0} → ℕ → List (KeytabEntry R) → List (KeytabEntry R)
unfolding relabel_entry
relabel v es = map (relabel_entry v) es

-- A call of `Login`: the client's settings and what its keytab holds at the time.
pub record Attempt (R C : Type 0) : Type 0 where
  pub name : Bytes
  pub realm : Bytes
  pub entries : List (KeytabEntry R)
  pub conf : C
  pub disable_pa_fx_fast : Bool

pub data KrbError (E : Type 0) : Type 0 where
  reading_keytab : Bytes → E → KrbError E
  reading_config : Bytes → E → KrbError E
  login_failed : Classified → KrbError E

-- The libraries, the file system and the environment that `FromKeytab` runs in.
pub record Environment (R C E : Type 0) : Type 0 where
  pub texts : Texts
  pub refusals : List Refusal
  pub load_keytab : Bytes → Result E (List (KeytabEntry R))
  pub krb5_config : Bytes
  pub load_config : Bytes → Result E C
  -- the attempts before this one, latest first, and this one; `none` is success
  pub login : List (Attempt R C) → Attempt R C → Option Failure

-- The returned pair, and the calls of `Login` that were made, latest first.
pub record Outcome (R C E : Type 0) : Type 0 where
  pub result : Result (KrbError E) (Attempt R C)
  pub attempts : List (Attempt R C)

unfoldable pub conf_path : Bytes → Bytes
conf_path [] = codes "/etc/krb5.conf"
conf_path (c ∷ s) = c ∷ s

-- `strings.Cut(principal, "@")`, its first result.
unfoldable pub bare_name : Bytes → Bytes
unfolding cut_before
bare_name principal = cut_before b'@' principal

module _ {R C E : Type 0} (env : Environment R C E) where
  -- `if err != nil { return nil, classify(err) }` and the return behind it.
  unfoldable pub finish : Attempt R C → List (Attempt R C) → Option Failure → Outcome R C E
  finish a made none = record { result = ok a; attempts = made }
  finish a made (some f) = record {
    result = err (login_failed (classify env.texts env.refusals f));
    attempts = made;
  }

  unfoldable pub retried : ℕ → Attempt R C → Attempt R C
  unfolding relabel
  retried v a = record {
    name = a.name;
    realm = a.realm;
    entries = relabel v a.entries;
    conf = a.conf;
    disable_pa_fx_fast = a.disable_pa_fx_fast;
  }

  -- The one retry, behind its guard.
  unfoldable pub retry : Attempt R C → Option Failure → Option ℕ → Outcome R C E
  unfolding finish retried
  retry a failed none = finish a (a ∷ []) failed
  retry a failed (some v) =
      if ltb 0 v && leb v (2 ^ 32 - 1)
      then finish (retried v a) (retried v a ∷ a ∷ []) (env.login (a ∷ []) (retried v a))
      else finish a (a ∷ []) failed

  unfoldable pub log_in : Attempt R C → Outcome R C E
  unfolding retry kdc_kvno
  log_in a = let failed = env.login [] a in retry a failed (kdc_kvno failed)

  unfoldable pub with_config :
      Bytes → Bytes → List (KeytabEntry R) → Bytes → Result E C → Outcome R C E
  unfolding log_in bare_name
  with_config principal realm es path (err e) = record {
    result = err (reading_config path e);
    attempts = [];
  }
  with_config principal realm es path (ok conf) = log_in (record {
    name = bare_name principal;
    realm = realm;
    entries = es;
    conf = conf;
    disable_pa_fx_fast = true;
  })

  unfoldable pub with_keytab :
      Bytes → Bytes → Bytes → Result E (List (KeytabEntry R)) → Outcome R C E
  unfolding with_config conf_path
  with_keytab path principal realm (err e) = record {
    result = err (reading_keytab path e);
    attempts = [];
  }
  with_keytab path principal realm (ok es) =
      let conf = conf_path env.krb5_config in
      with_config principal realm es conf (env.load_config conf)

  -- `FromKeytab`
  unfoldable pub from_keytab : Bytes → Bytes → Bytes → Outcome R C E
  unfolding with_keytab
  from_keytab path principal realm = with_keytab path principal realm (env.load_keytab path)
