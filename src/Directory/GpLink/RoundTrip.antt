-- ===== src/Directory/GpLink/RoundTrip.antt =====
-- Links written as a gPLink attribute are read back.
use mathlib.Core.Path.{subst}
use opengpm.Base.{
  ℕ, ◌+◌, ◌≤◌, ◌<◌, ◌^◌, List, [], ◌∷◌, ◌++◌, reverse, map, ◌≡◌, ◌≢◌, refl, sym, ap, ◌∙◌, ok, arith,
  All, All-append, reverse-reverse, map-reverse, All-append_left, All-append_right, All-reverse,
}
use opengpm.Text.{Bytes, Lacks}
use opengpm.Text.Case.{equal_fold_self}
use opengpm.Text.Decimal.{
  max_u32, IsDigit, print_uint, value-print_uint, print_uint-IsDigit, print_uint-ne-nil,
}
use opengpm.Directory.GpLink.{link_scheme, number, parse_gplink}
use opengpm.Directory.GpLink.Dn.{IsGuidDn}
use opengpm.Directory.GpLink.Entry.{IsEntry}
use opengpm.Directory.GpLink.Grammar.{Entries, done, entry, parse_gplink_iff}
use opengpm.Directory.GpLink.Order.{parse_gplink-Entries, number-number}
use opengpm.Model.Som.{Link}

-- One entry, `[LDAP://<DN>;<options>]`, as a directory stores it.
interior_of : Link → Bytes
interior_of l = link_scheme ++ (l.gpo_dn ++ b';' ∷ print_uint 10 l.options)

-- Links in precedence order, highest first: the attribute holds them from the other end.
print_entries : List Link → Bytes
unfolding interior_of
print_entries [] = []
print_entries (l ∷ ls) = b'[' ∷ (interior_of l ++ b']' ∷ print_entries ls)

pub print_gplink : List Link → Bytes
unfolding print_entries
print_gplink links = print_entries (reverse links)

-- What a link of any parsed attribute satisfies.
pub record IsPrintable (wide : Bytes → Bytes) (l : Link) : Type 0 where
  pub fits : l.options ≤ max_u32
  pub names_gpo : IsGuidDn wide l.gpo_dn l.gpo
  pub no_bracket : Lacks b']' l.gpo_dn

abbrev unset : Link → Link
unset l = record l { order = 0 }

digit_Lacks : (b : ℕ) (s : Bytes) → b'9' < b → All IsDigit s → Lacks b s
digit_Lacks b [] h ds = tt
digit_Lacks b (c ∷ s) h (d, ds) = ((λ e. absurd (omega arith)), digit_Lacks b s h ds)

number-map-unset : (i : ℕ) (ls : List Link) → number i (map unset ls) ≡ number i ls
unfolding number
number-map-unset i [] = refl
number-map-unset i (l ∷ ls) = ap (◌∷◌ (record l { order = i + 1 })) (number-map-unset (i + 1) ls)

module _ (wide : Bytes → Bytes) where
  interior_of-IsEntry : (l : Link) → IsPrintable wide l → IsEntry wide (interior_of l) (unset l)
  unfolding interior_of
  interior_of-IsEntry l p =
      let below : l.options < 10 ^ 10 = omega (arith, p.fits) in
      let digits = print_uint-IsDigit 10 l.options in
      record {
        scheme = link_scheme;
        raw_options = print_uint 10 l.options;
        splits = refl;
        is_ldap = equal_fold_self link_scheme;
        last_semicolon = digit_Lacks b';' (print_uint 10 l.options) (omega arith) digits;
        is_options = record {
          nonempty = print_uint-ne-nil 9 l.options;
          digits = digits;
          exact = sym (value-print_uint 10 l.options below);
          fits = p.fits;
        };
        names_gpo = p.names_gpo;
        unordered = refl;
      }

  interior_of-Lacks : (l : Link) → IsPrintable wide l → Lacks b']' (interior_of l)
  unfolding interior_of
  interior_of-Lacks l p =
      let tail =
        All-append (λ c. c ≢ b']') l.gpo_dn (b';' ∷ print_uint 10 l.options) p.no_bracket
          (
            (λ e. absurd (omega arith)),
            digit_Lacks b']' (print_uint 10 l.options) (omega arith)
                (print_uint-IsDigit 10 l.options),
          ) in
      All-append (λ c. c ≢ b']') link_scheme _ (omega arith) tail

  print_entries-Entries :
      (ls : List Link) → All (IsPrintable wide) ls → Entries wide (print_entries ls) (map unset ls)
  unfolding print_entries
  print_entries-Entries [] ps = done
  print_entries-Entries (l ∷ ls) (p, ps) =
      entry (interior_of-Lacks l p) (interior_of-IsEntry l p) (print_entries-Entries ls ps)

  -- Links written in precedence order as one attribute are read back, and numbered from 1.
  pub parse_gplink-print :
      (links : List Link)
      → All (IsPrintable wide) links
      → parse_gplink wide (print_gplink links) ≡ ok (number 0 links)
  unfolding print_gplink
  parse_gplink-print links ps =
      parse_gplink-Entries wide
        (print_entries-Entries (reverse links) (All-reverse (IsPrintable wide) links ps))
      ∙ ap ok (
          rw (map-reverse unset links, reverse-reverse (map unset links))
            (number-map-unset 0 links))

  Entries-IsPrintable : {t : Bytes} {ls : List Link} → Entries wide t ls → All (IsPrintable wide) ls
  Entries-IsPrintable done = tt
  Entries-IsPrintable (entry {interior} {rest} {l} lacks e es) =
      let raw = b';' ∷ e.raw_options in
      let inside = subst (λ t. Lacks b']' t) e.splits lacks in
      let body = All-append_right (λ c. c ≢ b']') e.scheme (l.gpo_dn ++ raw) inside in
      (
        record {
          fits = e.is_options.fits;
          names_gpo = e.names_gpo;
          no_bracket = All-append_left (λ c. c ≢ b']') l.gpo_dn raw body;
        },
        Entries-IsPrintable es,
      )

  number-IsPrintable :
      (i : ℕ) (ls : List Link) → All (IsPrintable wide) ls → All (IsPrintable wide) (number i ls)
  unfolding number
  number-IsPrintable i [] ps = tt
  number-IsPrintable i (l ∷ ls) (p, ps) = (
    record { fits = p.fits; names_gpo = p.names_gpo; no_bracket = p.no_bracket },
    number-IsPrintable (i + 1) ls ps,
  )

  -- Writing what was parsed and parsing again gives the same links, whatever the case of the
  -- scheme and the leading zeros of the options were.
  pub parse_gplink-print-parse :
      (s : Bytes) {links : List Link}
      → parse_gplink wide s ≡ ok links
      → parse_gplink wide (print_gplink links) ≡ ok links
  parse_gplink-print-parse s {links} h =
      let (ls, es, e) = (parse_gplink_iff wide s links).0 h in
      let ps =
        number-IsPrintable 0 (reverse ls)
          (All-reverse (IsPrintable wide) ls (Entries-IsPrintable es)) in
      rw e (parse_gplink-print (number 0 (reverse ls)) ps ∙ ap ok (number-number 0 0 (reverse ls)))
