-- ===== src/Capture.antt =====
-- scripts/capture-gpo/main.go: the fixture of a domain's GPOs, from the environment that names the
-- domain to the entries that are written. go-ldap's entries are parameters where the code calls
-- their methods, and so are base64 and Unicode's lower-case mapping.
pub mod Record
pub mod Kept
pub mod Entries
pub mod Run
pub mod Settings
use opengpm.Base.{
  ℕ, List, [], ◌∷◌, ◌++◌, map, Bool, true, false, not, ◌||◌, Option, none, some, if◌then◌else◌,
  Result, ok, err,
}
use opengpm.Base.Int.{is_neg}
use opengpm.Base.Sort.{Sorter}
use opengpm.Text.{Bytes, codes, equal}
use opengpm.Text.Search.{has_prefix}
use opengpm.Text.Case.{to_lower}
use opengpm.Text.Fields.{join, split}
use opengpm.Transport.Discover.{compare_text}

-- `oracleGPLinkPrefix`
abbrev pub oracle_gplink_prefix : Bytes
oracle_gplink_prefix = codes "oracle-gplink-"

-- `binaryAttrs[name]`
unfoldable pub is_binary : Bytes → Bool
unfolding equal
is_binary name = equal name (codes "nTSecurityDescriptor") || equal name (codes "objectGUID")

-- An attribute of an LDAP entry: its name, and each value with its bytes.
pub record EntryAttribute : Type 0 where
  pub name : Bytes
  pub values : List (Bytes × Bytes)

pub record LdapEntry : Type 0 where
  pub dn : Bytes
  pub attributes : List EntryAttribute

-- A recorded attribute: a string, or a list of strings.
pub data Recorded : Type 0 where
  one : Bytes → Recorded
  several : List Bytes → Recorded

-- `entry`; the map is an association list, latest first.
pub record Entry : Type 0 where
  pub dn : Bytes
  pub attributes : List (Bytes × Recorded)

unfoldable pub recorded : List Bytes → Recorded
recorded [] = several []
recorded (v ∷ []) = one v
recorded (v ∷ w ∷ vs) = several (v ∷ w ∷ vs)

module _ (base64 : Bytes → Bytes) where
  -- The body of the inner loop of `record`.
  unfoldable pub record_value : Bytes → Bytes × Bytes → Bytes
  unfolding is_binary
  record_value name (text, bytes) = if is_binary name then base64 bytes else text

  -- The outer loop, over the attributes written so far.
  unfoldable pub record_all :
      List EntryAttribute → List (Bytes × Recorded) → List (Bytes × Recorded)
  unfolding record_value recorded
  record_all [] out = out
  record_all (a ∷ attrs) out =
      record_all attrs ((a.name, recorded (map (record_value a.name) a.values)) ∷ out)

  -- `record`
  unfoldable pub record_entry : LdapEntry → Entry
  unfolding record_all
  record_entry ent = record { dn = ent.dn; attributes = record_all ent.attributes [] }

unfoldable pub find : Bytes → List (Bytes × Recorded) → Option Recorded
unfolding equal
find name [] = none
find name ((n, v) ∷ attrs) = let rest = find name attrs in if equal n name then some v else rest

-- The type assertion to a string.
unfoldable pub as_string : Option Recorded → Bytes
as_string (some (one s)) = s
as_string _ = []

-- `str`
unfoldable pub str : Entry → Bytes → Bytes
unfolding find as_string
str e name = as_string (find name e.attributes)

-- `cn`
unfoldable pub cn : Entry → Bytes
unfolding str
cn e = str e (codes "cn")

-- The function that `sort.Slice` is given.
unfoldable pub less_entry : Entry → Entry → Bool
unfolding cn compare_text equal
less_entry a b =
    if not (equal (cn a) (cn b))
    then is_neg (compare_text (cn a) (cn b))
    else is_neg (compare_text a.dn b.dn)

module _ (base64 : Bytes → Bytes) (display_name : LdapEntry → Bytes) where
  -- The loop over what was found: the scaffolding of another oracle is skipped.
  unfoldable pub keep : List LdapEntry → List Entry
  unfolding record_entry has_prefix
  keep [] = []
  keep (ent ∷ found) =
      let rest = keep found in
      if has_prefix (display_name ent) oracle_gplink_prefix
      then rest
      else record_entry base64 ent ∷ rest

  -- `run` behind the search: no object is an error (`none`), and else these entries are written.
  unfoldable pub capture : Sorter Entry → List LdapEntry → Option (List Entry)
  unfolding keep less_entry
  capture sorter [] = none
  capture sorter (ent ∷ found) = some (sorter.sort less_entry (keep (ent ∷ found)))

-- `config`
pub record Config : Type 0 where
  pub keytab : Bytes
  pub principal : Bytes
  pub realm : Bytes
  pub kdc : Bytes
  pub ca_cert : Bytes
  pub base_dn : Bytes

-- `baseDNFromRealm`
unfoldable pub base_dn_from_realm : (Bytes → Bytes) → Bytes → Bytes
unfolding join split to_lower
base_dn_from_realm wide realm =
    join (codes ",") (map (λ l. codes "DC=" ++ l) (split b'.' (to_lower wide realm)))

-- The variables that `readEnv` calls `get` on, in order.
abbrev pub required : List Bytes
required =
    codes "OPENGPM_TEST_KEYTAB"
    ∷ codes "OPENGPM_TEST_PRINCIPAL"
    ∷ codes "OPENGPM_TEST_REALM"
    ∷ codes "OPENGPM_TEST_KDC"
    ∷ codes "OPENGPM_TEST_CACERT"
    ∷ codes "KRB5_CONFIG"
    ∷ []

module _ (wide : Bytes → Bytes) (getenv : Bytes → Bytes) where
  unfoldable pub is_unset : Bytes → Bool
  is_unset [] = true
  is_unset (c ∷ s) = false

  -- What the calls of `get` leave in `missing`.
  unfoldable pub missing : List Bytes → List Bytes
  unfolding is_unset
  missing [] = []
  missing (k ∷ ks) = let rest = missing ks in if is_unset (getenv k) then k ∷ rest else rest

  unfoldable pub base_dn_or : Bytes → Bytes → Bytes
  unfolding base_dn_from_realm
  base_dn_or realm [] = base_dn_from_realm wide realm
  base_dn_or realm (c ∷ s) = c ∷ s

  unfoldable pub environment : Config
  unfolding base_dn_or
  environment = record {
    keytab = getenv (codes "OPENGPM_TEST_KEYTAB");
    principal = getenv (codes "OPENGPM_TEST_PRINCIPAL");
    realm = getenv (codes "OPENGPM_TEST_REALM");
    kdc = getenv (codes "OPENGPM_TEST_KDC");
    ca_cert = getenv (codes "OPENGPM_TEST_CACERT");
    base_dn =
        base_dn_or (getenv (codes "OPENGPM_TEST_REALM")) (getenv (codes "OPENGPM_TEST_BASEDN"));
  }

  unfoldable pub unless_missing : List Bytes → Result (List Bytes) Config
  unfolding environment
  unless_missing [] = ok environment
  unless_missing (k ∷ ks) = err (k ∷ ks)

  -- `readEnv`; the error names the missing variables.
  unfoldable pub read_env : Result (List Bytes) Config
  unfolding unless_missing missing
  read_env = unless_missing (missing required)
