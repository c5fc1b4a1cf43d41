-- ===== src/Tests/RunTests.antt =====
-- `run` of scripts/capture-gpo/main.go against a lab domain with two objects.
use opengpm.Base.{◌⊎◌, ℕ, [], ◌∷◌, ◌≡◌, ◌≢◌, refl, if◌then◌else◌, none, some, ok, length, All}
use opengpm.Base.Sort.Insertion.{insertion_sorter, insertion_sort}
use opengpm.Text.{Bytes, codes, equal}
use opengpm.Text.Search.{has_prefix, cut_before}
use opengpm.Text.Fields.{join_host_port}
use opengpm.Transport.Discover.{compare_text}
use opengpm.Transport.Krb as krb
use opengpm.Transport.Krb.{Attempt, kdc_codes, from_keytab, kdc_kvno}
use opengpm.Transport.Ldapx as ldapx
use opengpm.Transport.Ldapx.{Event, dialled, gssapi_bound, version_tls12, dial, search_sd}
use opengpm.Capture as program
use opengpm.Capture.{LdapEntry, Entry, environment, required, read_env, capture}
use opengpm.Capture.Run.{World, run}
use opengpm.Capture.Run.Allowed.{IsAllowed}
use opengpm.Capture.Run.Closing.{ClosesLast}
use opengpm.Capture.Run.Safety.{run-IsAllowed}

abbrev lab : Bytes → Bytes
lab k =
    if equal k (codes "OPENGPM_TEST_PRINCIPAL")
    then codes "svc@GPLAB.LOCAL"
    else if equal k (codes "OPENGPM_TEST_BASEDN")
    then codes "DC=gplab"
    else codes "x"

abbrev object : Bytes → LdapEntry
object name = record {
  dn = name;
  attributes = record { name = codes "cn"; values = (name, name) ∷ [] } ∷ [];
}

abbrev kerberos : krb.Environment Unit Unit ℕ
kerberos = record {
  texts = record { lookup = λ code. codes "code"; networking_error = codes "network" };
  refusals = kdc_codes;
  load_keytab = λ path. ok [];
  krb5_config = [];
  load_config = λ path. ok tt;
  login = λ made a. none;
}

abbrev directory : ldapx.Environment (Attempt Unit Unit) Unit ℕ LdapEntry ℕ
directory = record {
  read_file = λ path. ok (codes "PEM");
  append_certs_from_pem = λ bundle. some tt;
  dial_url_with = λ url tc. ok 3;
  gssapi_bind = λ h k spn options. none;
  simple_bind = λ h dn password. none;
  close_handle = λ h. some none;
  search = λ h req. ok (object (codes "{B}") ∷ object (codes "{A}") ∷ []);
  ap_option_mutual_required = 2;
  scope_whole_subtree = 2;
  never_deref_aliases = 0;
}

-- The encoding is the number of objects.
abbrev world : World Unit Unit Unit ℕ ℕ
world = record {
  getenv = lab;
  wide = λ s. s;
  base64 = λ s. s;
  sorter = insertion_sorter Entry;
  krb_env = kerberos;
  ldap_env = directory;
  get_attribute_value = λ ent name. ent.dn;
  marshal_indent = λ es. ok (length es ∷ []);
  mkdir_all = λ path mode. none;
  write_file = λ path content mode. none;
}

succeeds : (run world).failed ≡ none
unfolding run read_env environment from_keytab dial search_sd has_prefix insertion_sort equal
    compare_text cut_before join_host_port capture
succeeds = refl

run-IsAllowed_example :
    All (IsAllowed world (environment world.wide world.getenv)) (run world).events
    × (All (λ k. world.getenv k ≢ []) required ⊎ ((run world).events ≡ []))
    × ClosesLast world
run-IsAllowed_example = run-IsAllowed world
