-- ===== src/Tests/CaptureTests.antt =====
-- scripts/capture-gpo/main.go on three objects of a lab domain.
use mathlib.Core.List.{Perm, Pairwise}
use opengpm.Base.{List, [], ◌∷◌, ◌≡◌, ◌≢◌, ◌↔◌, refl, if◌then◌else◌, some, ok, err, All}
use opengpm.Base.Sort.Insertion.{insertion_sorter, insertion_sort}
use opengpm.Text.{Bytes, codes, equal}
use opengpm.Text.Search.{has_prefix}
use opengpm.Text.Case.{to_lower, lower_byte}
use opengpm.Text.Fields.{split, split_from, join}
use opengpm.Transport.Discover.{compare_text}
use opengpm.Capture.{
  environment, LdapEntry, one, Entry, capture, base_dn_from_realm, required, read_env,
}
use opengpm.Capture.Kept.{Sifted}
use opengpm.Capture.Entries.{EntryLe, capture_ordered}
use opengpm.Capture.Settings.{Unset, read_env_iff}

abbrev named : Bytes → LdapEntry
named name = record {
  dn = name;
  attributes = record { name = codes "cn"; values = (name, name) ∷ [] } ∷ [];
}

abbrev same : Bytes → Bytes
same s = s

-- The display name is the DN here, and base64 leaves its text.
abbrev display_name : LdapEntry → Bytes
display_name ent = ent.dn

abbrev found : List LdapEntry
found = named (codes "{B}") ∷ named (codes "oracle-gplink-1") ∷ named (codes "{A}") ∷ []

abbrev entry : Bytes → Entry
entry name = record { dn = name; attributes = (codes "cn", one name) ∷ [] }

captures :
    capture same display_name (insertion_sorter Entry) found
    ≡ some (entry (codes "{A}") ∷ entry (codes "{B}") ∷ [])
unfolding capture has_prefix insertion_sort equal compare_text
captures = refl

capture_ordered_example :
    (es : List Entry) × (capture same display_name (insertion_sorter Entry) found ≡ some es)
    × ((kept : List Entry) × Sifted same display_name found kept × Perm es kept)
    × Pairwise EntryLe es
capture_ordered_example = capture_ordered same display_name (insertion_sorter Entry) found (λ e. cc)

realm_to_base : base_dn_from_realm same (codes "GPLAB.LOCAL") ≡ codes "DC=gplab,DC=local"
unfolding base_dn_from_realm join split split_from to_lower lower_byte
realm_to_base = refl

-- Only the realm is set.
abbrev getenv : Bytes → Bytes
getenv k = if equal k (codes "OPENGPM_TEST_REALM") then codes "GPLAB.LOCAL" else []

-- The other five variables.
abbrev unset_names : List Bytes
unset_names =
    codes "OPENGPM_TEST_KEYTAB"
    ∷ codes "OPENGPM_TEST_PRINCIPAL"
    ∷ codes "OPENGPM_TEST_KDC"
    ∷ codes "OPENGPM_TEST_CACERT"
    ∷ codes "KRB5_CONFIG"
    ∷ []

names_the_other_five : read_env same getenv ≡ err unset_names
unfolding read_env equal
names_the_other_five = refl

read_env_iff_example :
    ((read_env same getenv ≡ ok (environment same getenv))
      ↔ ((environment same getenv ≡ environment same getenv) × All (λ k. getenv k ≢ []) required))
    × ((read_env same getenv ≡ err unset_names)
        ↔ ((unset_names ≢ []) × Unset getenv required unset_names))
read_env_iff_example = read_env_iff same getenv (environment same getenv) unset_names
