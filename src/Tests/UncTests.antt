-- ===== src/Tests/UncTests.antt =====
-- smbx.go: `ParseUNC` on the paths of its unit tests.
use opengpm.Base.{◌≡◌, ◌↔◌, refl, ok, err, arith}
use opengpm.Text.{Bytes, codes}
use opengpm.Text.Case.{to_upper}
use opengpm.Text.Fields.{index_func, fields_func, join}
use opengpm.Transport.Smbx.Unc.{Unc, not_unc, no_domain, no_share, cut_func, path_of, parse_unc}
use opengpm.Transport.Smbx.Unc.Spec.{IsName, IsUnc, parse_unc_iff}
use opengpm.Transport.Smbx.Unc.Paths.{
  IsNormal, IsCanonical, unc_text, parse_unc-IsNormal, parse_unc-unc_text,
}

abbrev ascii_only : Bytes → Bytes
ascii_only s = s

abbrev mixed : Bytes
mixed = codes "\\\\example.test/SysVol\\a//b.ini\\"

abbrev parsed : Unc
parsed = record { domain = codes "example.test"; share = codes "SYSVOL"; path = codes "a/b.ini" }

parse-mixed : parse_unc ascii_only mixed ≡ ok parsed
unfolding parse_unc cut_func index_func to_upper path_of fields_func join
parse-mixed = refl

share_root :
    parse_unc ascii_only (codes "\\\\d\\SysVol")
    ≡ ok (record { domain = codes "d"; share = codes "SYSVOL"; path = codes "." })
unfolding parse_unc cut_func index_func to_upper path_of fields_func join
share_root = refl

refused :
    (parse_unc ascii_only (codes "C:\\Windows") ≡ err (not_unc (codes "C:\\Windows")))
    × (parse_unc ascii_only (codes "\\\\\\SysVol") ≡ err (no_domain (codes "\\\\\\SysVol")))
    × (parse_unc ascii_only (codes "\\\\d") ≡ err (no_share (codes "\\\\d")))
    × (parse_unc ascii_only (codes "\\\\d\\\\SysVol") ≡ err (no_share (codes "\\\\d\\\\SysVol")))
unfolding parse_unc cut_func index_func
refused = (refl, refl, refl, refl)

parse_unc_iff_example : (parse_unc ascii_only mixed ≡ ok parsed) ↔ IsUnc ascii_only mixed parsed
parse_unc_iff_example = parse_unc_iff ascii_only mixed parsed

parsed-IsNormal : IsNormal parsed.path
parsed-IsNormal = parse_unc-IsNormal ascii_only mixed parse-mixed

domain-IsName : IsName (codes "example.test")
domain-IsName = record { nonempty = cc; free = ground arith }

share-IsName : IsName (codes "SYSVOL")
share-IsName = record { nonempty = cc; free = ground arith }

parsed-IsCanonical : IsCanonical ascii_only parsed
unfolding to_upper
parsed-IsCanonical = record {
  domain_name = domain-IsName;
  share_name = share-IsName;
  upper = refl;
  normal = parsed-IsNormal;
}

parse_unc-unc_text_example : parse_unc ascii_only (unc_text parsed) ≡ ok parsed
parse_unc-unc_text_example = parse_unc-unc_text ascii_only parsed parsed-IsCanonical
