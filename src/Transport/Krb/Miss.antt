-- ===== src/Transport/Krb/Miss.antt =====
-- internal/transport/krb/krb.go: `keytabMiss`, the regular expression
-- `matching key not found in keytab.*kvno: (\d+)`, read as `regexp` reads it: the leftmost match,
-- with the longest `.*` (which crosses no newline) and the longest run of digits.
pub mod Matches
pub mod Reads
use opengpm.Base.{[], ◌∷◌, ◌==◌, Option, none, some, if◌then◌else◌, drop}
use opengpm.Text.{Bytes, codes}
use opengpm.Text.Search.{has_prefix}
use opengpm.Text.Decimal.{is_digit}

-- The text before `.*`, and the text between `.*` and the group.
abbrev pub needle : Bytes
needle = codes "matching key not found in keytab"

abbrev pub label : Bytes
label = codes "kvno: "

-- The longest run of digits in front: `\d+` if it is not empty.
unfoldable pub leading_digits : Bytes → Bytes
leading_digits [] = []
leading_digits (c ∷ s) = let rest = leading_digits s in if is_digit c then c ∷ rest else []

abbrev pub group : Bytes → Option Bytes
group [] = none
group (c ∷ s) = some (c ∷ s)

abbrev pub or_else : Option Bytes → Option Bytes → Option Bytes
or_else (some d) _ = some d
or_else none other = other

-- `kvno: (\d+)` at the front.
unfoldable pub labelled : Bytes → Option Bytes
unfolding leading_digits has_prefix
labelled s = if has_prefix s label then group (leading_digits (drop 6 s)) else none

-- `.*kvno: (\d+)` at the front: the last place in the line wins.
unfoldable pub version_in_line : Bytes → Option Bytes
unfolding labelled
version_in_line [] = none
version_in_line (c ∷ s) =
    let rest = version_in_line s in or_else (if c == 10 then none else rest) (labelled (c ∷ s))

-- `keytabMiss.FindStringSubmatch(s)`: the group, or `none` for no match.
unfoldable pub keytab_miss : Bytes → Option Bytes
unfolding version_in_line has_prefix
keytab_miss [] = none
keytab_miss (c ∷ s) =
    let rest = keytab_miss s in
    or_else (if has_prefix (c ∷ s) needle then version_in_line (drop 32 (c ∷ s)) else none) rest
