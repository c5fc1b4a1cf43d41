-- ===== src/Directory/GpLink.antt =====
-- internal/directory/gplink.go: the parser of the gPLink attribute. An index of -1 is `none`, a
-- slice `s[i:j]` is `take` and `drop`, and an error keeps the texts that its message quotes.
pub mod Dn
pub mod Entry
pub mod Errors
pub mod Grammar
pub mod Order
pub mod RoundTrip
pub mod Termination
use opengpm.Base.{
  ℕ, zero, suc, ◌+◌, List, [], ◌∷◌, ◌++◌, reverse, Bool, false, not, ◌&&◌, ◌||◌, ◌==◌, ltb,
  if◌then◌else◌, Option, none, some, Result, ok, err, ◌>>=◌, wrap_err, length, take, drop,
}
use opengpm.Text.{Bytes, codes}
use opengpm.Text.Search.{index_byte, last_index_byte}
use opengpm.Text.Case.{equal_fold, to_upper}
use opengpm.Text.Space.{trim_space}
use opengpm.Text.Decimal.{NumError, parse_uint, max_u32}
use opengpm.Model.Som.{Guid, Link}

-- `linkScheme` and `guidRDN`.
abbrev pub link_scheme : Bytes
link_scheme = codes "LDAP://"

abbrev pub guid_rdn : Bytes
guid_rdn = codes "cn="

pub data DnError : Type 0 where
  not_guid_rdn : Bytes → DnError
  not_braced : Bytes → Bytes → DnError

-- `out_of_fuel` is the loop's own: `parse` never returns it.
pub data LinkError : Type 0 where
  expected_entry : Bytes → LinkError
  unterminated_entry : Bytes → LinkError
  missing_scheme : Bytes → LinkError
  missing_options : Bytes → LinkError
  bad_options : Bytes → Bytes → NumError → LinkError
  bad_dn : Bytes → DnError → LinkError
  out_of_fuel : LinkError

-- `len(s) < len(p) || !strings.EqualFold(s[:len(p)], p)`, negated.
pub starts_fold : Bytes → Bytes → Bool
starts_fold p s = not (ltb (length s) (length p)) && equal_fold (take (length p) s) p

-- `guid[0] == '{'`, and `guid[len(guid)-1] == '}'` below.
pub opens : Bytes → Bool
opens [] = false
opens (c ∷ s) = c == b'{'

pub closes : Bytes → Bool
closes [] = false
closes (c ∷ []) = c == b'}'
closes (c ∷ d ∷ s) = closes (d ∷ s)

-- The leading RDN: the text before the first comma.
pub leading_rdn : Bytes → Bytes
leading_rdn dn = elim (index_byte dn b',') [ none ↦ dn | some i ↦ take i dn ]

-- `rest[0] == '['` on a text that is not empty.
pub starts_entry : Bytes → Bool
starts_entry [] = false
starts_entry (c ∷ s) = c == b'['

module _ (wide : Bytes → Bytes) where
  -- `gpoGUIDFromDN`
  unfoldable pub gpo_guid_from_dn : Bytes → Result DnError Guid
  unfolding leading_rdn starts_fold opens closes
  gpo_guid_from_dn dn =
      let rdn = leading_rdn dn in
      let guid = drop (length guid_rdn) rdn in
      if not (starts_fold guid_rdn rdn)
      then err (not_guid_rdn dn)
      else if ltb (length guid) 3 || not (opens guid) || not (closes guid)
      then err (not_braced dn guid)
      else ok (to_upper wide guid)

  -- `body[:semi]` and `body[semi+1:]`, once the last semicolon is found.
  parse_body : Bytes → Bytes → Option ℕ → Result LinkError Link
  parse_body entry body none = err (missing_options entry)
  parse_body entry body (some semi) = do
    let dn = take semi body
    let raw_options = drop (suc semi) body
    options ← wrap_err (bad_options entry raw_options) (parse_uint max_u32 raw_options)
    guid ← wrap_err (bad_dn entry) (gpo_guid_from_dn dn)
    ok (record { gpo = guid; gpo_dn = dn; options = options; order = 0 })

  -- `parseGPLinkEntry`
  unfoldable pub parse_gplink_entry : Bytes → Result LinkError Link
  unfolding parse_body starts_fold
  parse_gplink_entry entry =
      let body = drop (length link_scheme) entry in
      if not (starts_fold link_scheme entry)
      then err (missing_scheme entry)
      else parse_body entry body (last_index_byte body b';')

  -- One round of the loop on `rest`, which is not empty: the link and what is left of the text.
  unfoldable pub parse_next : Bytes → Result LinkError (Link × Bytes)
  unfolding starts_entry
  parse_next rest =
      if not (starts_entry rest) then err (expected_entry rest) else elim (index_byte rest b']') [
        | none ↦ err (unterminated_entry rest)
        | some end ↦ do
          link ← parse_gplink_entry (drop 1 (take end rest))
          ok (link, drop (suc end) rest)
      ]

  -- `for rest != ""`; `links` is the slice appended to.
  pub parse_loop : ℕ → Bytes → List Link → Result LinkError (List Link)
  parse_loop fuel [] links = ok links
  parse_loop zero (c ∷ rest) links = err out_of_fuel
  parse_loop (suc fuel) (c ∷ rest) links = do
    (link, rest') ← parse_next (c ∷ rest)
    parse_loop fuel rest' (links ++ link ∷ [])

-- `for i := range links { links[i].Order = i + 1 }`
unfoldable pub number : ℕ → List Link → List Link
number i [] = []
number i (l ∷ links) = record l { order = i + 1 } ∷ number (i + 1) links

-- `ParseGPLink`. A round takes at least one byte, so the length of the text is fuel enough.
unfoldable pub parse_gplink : (Bytes → Bytes) → Bytes → Result LinkError (List Link)
unfolding parse_loop
parse_gplink wide s = do
  let rest = trim_space s
  links ← parse_loop wide (length rest) rest []
  ok (number 0 (reverse links))
