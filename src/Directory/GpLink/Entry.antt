-- ===== src/Directory/GpLink/Entry.antt =====
-- What `parseGPLinkEntry` accepts: `LDAP://<DN>;<options>`, and the link that it stands for.
use opengpm.Base.{
  ℕ, suc, ◌≤◌, [], ◌∷◌, ◌++◌, ◌≡◌, ◌≢◌, inl, inr, refl, sym, ap, ◌∙◌, true, Option, none, some,
  Bool-cases, Result, ok, err, ◌>>=◌, wrap_err, arith, length, take, drop, All,
}
use opengpm.Text.{Bytes, Lacks}
use opengpm.Text.Search.{
  last_index_byte, last_index_byte-some, last_index_byte-append, take_before, drop_past,
}
use opengpm.Text.Case.{equal_fold}
use opengpm.Text.Decimal.{
  NumError, parse_uint, max_u32, IsDigit, value, parse_uint_sound, parse_uint_complete,
}
use opengpm.Directory.GpLink.{
  link_scheme, LinkError, DnError, starts_fold, gpo_guid_from_dn, parse_body, parse_gplink_entry,
  bad_options, bad_dn,
}
use opengpm.Directory.GpLink.Dn.{
  IsGuidDn, gpo_guid_from_dn_sound, gpo_guid_from_dn_complete, starts_fold-append,
  starts_fold-splits,
}
use opengpm.Model.Som.{Guid, Link}

-- The options are the text behind the last semicolon, a decimal number that fits 32 bits.
pub record IsOptions (raw : Bytes) (options : ℕ) : Type 0 where
  pub nonempty : raw ≢ []
  pub digits : All IsDigit raw
  pub exact : options ≡ value 0 raw
  pub fits : options ≤ max_u32

-- The text between the brackets, and the link that it stands for.
pub record IsEntry (wide : Bytes → Bytes) (entry : Bytes) (l : Link) : Type 0 where
  pub scheme : Bytes
  pub raw_options : Bytes
  pub splits : entry ≡ scheme ++ (l.gpo_dn ++ b';' ∷ raw_options)
  pub is_ldap : equal_fold scheme link_scheme ≡ true
  pub last_semicolon : Lacks b';' raw_options
  pub is_options : IsOptions raw_options l.options
  pub names_gpo : IsGuidDn wide l.gpo_dn l.gpo
  pub unordered : l.order ≡ 0

-- The last steps of `parse_gplink_entry`, over the results of the two that can fail.
abbrev pub assemble :
    Bytes → Bytes → Bytes → Result NumError ℕ → Result DnError Guid → Result LinkError Link
assemble entry raw dn ro rg = do
  options ← wrap_err (bad_options entry raw) ro
  guid ← wrap_err (bad_dn entry) rg
  ok (record { gpo = guid; gpo_dn = dn; options = options; order = 0 })

assemble-eq-ok :
    (entry raw dn : Bytes) (ro : Result NumError ℕ) (rg : Result DnError Guid) {l : Link}
    → assemble entry raw dn ro rg ≡ ok l
    → (l.gpo_dn ≡ dn) × (ro ≡ ok l.options) × (rg ≡ ok l.gpo) × (l.order ≡ 0)
assemble-eq-ok entry raw dn (ok o) (ok g) h = ground arith
assemble-eq-ok entry raw dn (ok o) (err x) h = cc
assemble-eq-ok entry raw dn (err x) rg h = cc

module _ (wide : Bytes → Bytes) where
  body-IsEntry :
      (entry body : Bytes) (found : Option ℕ) {l : Link}
      → last_index_byte body b';' ≡ found
      → entry ≡ take (length link_scheme) entry ++ body
      → equal_fold (take (length link_scheme) entry) link_scheme ≡ true
      → parse_body wide entry body found ≡ ok l
      → IsEntry wide entry l
  unfolding parse_body
  body-IsEntry entry body none f e folds h = cc
  body-IsEntry entry body (some semi) {l} f e folds h =
      let raw = drop (suc semi) body in
      let dn = take semi body in
      let cut = last_index_byte-some body b';' f in
      let (is_dn, options, guid, zero_order) =
        assemble-eq-ok entry raw dn (parse_uint max_u32 raw) (gpo_guid_from_dn wide dn) h in
      let (nonempty, digits, exact, fits) =
        parse_uint_sound max_u32 (omega arith) raw {r = l.options} options in
      record {
        scheme = take (length link_scheme) entry;
        raw_options = raw;
        splits =
            e
            ∙ ap (λ t. take (length link_scheme) entry ++ t)
                (cut.splits ∙ ap (λ t. t ++ b';' ∷ raw) (sym is_dn));
        is_ldap = folds;
        last_semicolon = cut.after;
        is_options = record { nonempty = nonempty; digits = digits; exact = exact; fits = fits };
        names_gpo = rw is_dn (gpo_guid_from_dn_sound wide dn guid);
        unordered = zero_order;
      }

  pub parse_gplink_entry_sound :
      (entry : Bytes) {l : Link} → parse_gplink_entry wide entry ≡ ok l → IsEntry wide entry l
  unfolding parse_gplink_entry
  parse_gplink_entry_sound entry {l} h = elim (Bool-cases (starts_fold link_scheme entry)) [
    | inl starts ↦
        let (whole, folds) = starts_fold-splits link_scheme entry starts in
        body-IsEntry entry (drop (length link_scheme) entry) _ refl whole folds (ground arith)
    | inr other ↦ absurd (ground arith)
  ]

  pub parse_gplink_entry_complete :
      (entry : Bytes) {l : Link} → IsEntry wide entry l → parse_gplink_entry wide entry ≡ ok l
  unfolding parse_gplink_entry
  parse_gplink_entry_complete entry {l} e =
      let body = l.gpo_dn ++ b';' ∷ e.raw_options in
      let (starts, rest) = starts_fold-append e.scheme link_scheme body e.is_ldap in
      let o = e.is_options in
      let options : parse_uint max_u32 e.raw_options ≡ ok l.options =
        parse_uint_complete max_u32 (omega arith) e.raw_options o.nonempty o.digits (omega arith)
        ∙ ap ok (sym o.exact) in
      rw
        (
          e.splits,
          starts,
          rest,
          last_index_byte-append l.gpo_dn b';' e.raw_options e.last_semicolon,
        )
        (rw
          (
            parse_body,
            take_before l.gpo_dn b';' e.raw_options,
            drop_past l.gpo_dn b';' e.raw_options,
          )
          (rw (options, gpo_guid_from_dn_complete wide l.gpo_dn e.names_gpo) (ground arith)))
