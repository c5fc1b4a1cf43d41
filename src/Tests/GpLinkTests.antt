-- ===== src/Tests/GpLinkTests.antt =====
-- internal/directory/gplink.go on attributes like those of its unit tests and oracle.
use opengpm.Base.{◌≢◌, length, List, [], ◌∷◌, ◌++◌, reverse, ◌≡◌, ◌↔◌, refl, ok, err, arith}
use opengpm.Text.{Bytes, codes}
use opengpm.Text.Space.{trim_space}
use opengpm.Text.Search.{index_byte, last_index_byte}
use opengpm.Text.Case.{equal_fold, to_upper}
use opengpm.Text.Decimal.{syntax, range, parse_uint}
use opengpm.Directory.GpLink.{
  expected_entry, unterminated_entry, missing_scheme, missing_options, bad_options, bad_dn,
  not_guid_rdn, not_braced, number, parse_loop, out_of_fuel, parse_gplink_entry, parse_gplink,
  parse_next, gpo_guid_from_dn,
}
use opengpm.Directory.GpLink.Dn.{gpo_guid_from_dn_sound}
use opengpm.Directory.GpLink.Grammar.{Entries, parse_gplink_iff}
use opengpm.Directory.GpLink.Errors.{FailsAt, parse_gplink-FailsAt}
use opengpm.Directory.GpLink.Order.{parse_gplink-append}
use opengpm.Directory.GpLink.Termination.{parse_loop_terminates}
use opengpm.Directory.GpLink.RoundTrip.{
  IsPrintable, print_gplink, parse_gplink-print, parse_gplink-print-parse,
}
use opengpm.Model.Som.{Link}

-- Unicode's mapping is not reached by ASCII texts.
abbrev ascii_only : Bytes → Bytes
ascii_only s = s

abbrev first_dn : Bytes
first_dn = codes "cn={9753681b-7017},cn=policies,dc=gplab"

abbrev second_dn : Bytes
second_dn = codes "CN={6477BE36-69cc},cn=policies\\;x"

abbrev attribute : Bytes
attribute =
    codes
      " [LDAP://cn={9753681b-7017},cn=policies,dc=gplab;0][ldap://CN={6477BE36-69cc},cn=policies\\;x;03]\n"

abbrev links : List Link
links =
    record { gpo = codes "{6477BE36-69CC}"; gpo_dn = second_dn; options = 3; order = 1 }
    ∷ record { gpo = codes "{9753681B-7017}"; gpo_dn = first_dn; options = 0; order = 2 }
    ∷ []

parse-attribute : parse_gplink ascii_only attribute ≡ ok links
unfolding parse_gplink parse_next parse_gplink_entry gpo_guid_from_dn trim_space index_byte
    last_index_byte equal_fold to_upper parse_uint number
parse-attribute = refl

malformed :
    (parse_gplink ascii_only (codes "hello") ≡ err (expected_entry (codes "hello")))
    × (parse_gplink ascii_only (codes "[LDAP://") ≡ err (unterminated_entry (codes "[LDAP://")))
    × (parse_gplink ascii_only (codes "[cn={ab};0]") ≡ err (missing_scheme (codes "cn={ab};0")))
    × (parse_gplink ascii_only (codes "[LDAP://cn={ab}]")
        ≡ err (missing_options (codes "LDAP://cn={ab}")))
    × (parse_gplink ascii_only (codes "[LDAP://cn={ab};4294967296]")
        ≡ err (bad_options (codes "LDAP://cn={ab};4294967296") (codes "4294967296") range))
    × (parse_gplink ascii_only (codes "[LDAP://cn={ab};-1]")
        ≡ err (bad_options (codes "LDAP://cn={ab};-1") (codes "-1") syntax))
    × (parse_gplink ascii_only (codes "[LDAP://cn=ab;0]")
        ≡ err (bad_dn (codes "LDAP://cn=ab;0") (not_braced (codes "cn=ab") (codes "ab"))))
    × (parse_gplink ascii_only (codes "[LDAP://;0]")
        ≡ err (bad_dn (codes "LDAP://;0") (not_guid_rdn [])))
unfolding parse_gplink parse_next parse_gplink_entry gpo_guid_from_dn trim_space index_byte
    last_index_byte equal_fold to_upper parse_uint number
malformed = (refl, refl, refl, refl, refl, refl, refl, refl)

parse_gplink_iff_example : (parse_gplink ascii_only attribute ≡ ok links) ↔ (
    (ls : List Link) × Entries ascii_only (trim_space attribute) ls
    × (links ≡ number 0 (reverse ls)))
parse_gplink_iff_example = parse_gplink_iff ascii_only attribute links

abbrev broken : Bytes
broken = codes "[LDAP://cn={ab};0]junk"

parse_gplink-FailsAt_example :
    (parse_gplink ascii_only broken ≡ err (expected_entry (codes "junk")))
    ↔ FailsAt ascii_only (trim_space broken) (expected_entry (codes "junk"))
parse_gplink-FailsAt_example =
    parse_gplink-FailsAt ascii_only broken (expected_entry (codes "junk"))

-- With a thousand rounds of fuel.
parse_loop_terminates_example :
    (parse_loop ascii_only 1000 broken [] ≡ parse_loop ascii_only (length broken) broken [])
    × (parse_loop ascii_only 1000 broken [] ≢ err out_of_fuel)
parse_loop_terminates_example = parse_loop_terminates ascii_only broken [] 1000 (omega arith)

parse_gplink-append_example :
    parse_gplink ascii_only (trim_space attribute ++ trim_space attribute)
    ≡ ok (links ++ number 2 links)
parse_gplink-append_example =
    parse_gplink-append ascii_only attribute attribute parse-attribute parse-attribute

parse_gplink-print-parse_example : parse_gplink ascii_only (print_gplink links) ≡ ok links
parse_gplink-print-parse_example = parse_gplink-print-parse ascii_only attribute parse-attribute

first_guid : gpo_guid_from_dn ascii_only first_dn ≡ ok (codes "{9753681B-7017}")
unfolding gpo_guid_from_dn index_byte equal_fold to_upper
first_guid = refl

abbrev first_link : Link
first_link = record { gpo = codes "{9753681B-7017}"; gpo_dn = first_dn; options = 2; order = 1 }

first_link-IsPrintable : IsPrintable ascii_only first_link
first_link-IsPrintable = record {
  fits = omega arith;
  names_gpo = gpo_guid_from_dn_sound ascii_only first_dn first_guid;
  no_bracket = omega arith;
}

parse_gplink-print_example :
    parse_gplink ascii_only (print_gplink (first_link ∷ [])) ≡ ok (number 0 (first_link ∷ []))
parse_gplink-print_example =
    parse_gplink-print ascii_only (first_link ∷ []) (first_link-IsPrintable, tt)
