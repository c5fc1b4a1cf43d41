-- ===== src/Directory/GpLink/Order.antt =====
-- The precedence order: numbering, and what a longer attribute does to it.
use mathlib.Core.Path.{subst}
use opengpm.Base.{
  ℕ, zero, suc, ◌+◌, List, [], ◌∷◌, ◌++◌, reverse, ◌≡◌, ◌⊎◌, inl, inr, refl, sym, ap, ◌∙◌, some, ok,
  arith, length, get_elem?, append_assoc, reverse-append,
}
use opengpm.Text.{Bytes}
use opengpm.Text.Space.{trim_space, trim_space_bracketed}
use opengpm.Directory.GpLink.{number, parse_gplink}
use opengpm.Directory.GpLink.Grammar.{Entries, done, entry, parse_gplink_iff}
use opengpm.Model.Som.{Link}

pub number-append :
    (i : ℕ) (xs ys : List Link) → number i (xs ++ ys) ≡ number i xs ++ number (i + length xs) ys
unfolding number
number-append i [] ys = ap (λ (n : ℕ). number n ys) (omega arith)
number-append i (x ∷ xs) ys =
    ap (◌∷◌ (record x { order = i + 1 }))
      (number-append (i + 1) xs ys ∙ ap (λ n. number (i + 1) xs ++ number n ys) (omega arith))

pub length-number : (i : ℕ) (xs : List Link) → length (number i xs) ≡ length xs
unfolding number
length-number i [] = refl
length-number i (x ∷ xs) = ap suc (length-number (i + 1) xs)

-- Numbering forgets the numbers that were there.
pub number-number : (i j : ℕ) (xs : List Link) → number i (number j xs) ≡ number i xs
unfolding number
number-number i j [] = refl
number-number i j (x ∷ xs) =
    ap (◌∷◌ (record x { order = i + 1 })) (number-number (i + 1) (j + 1) xs)

number-reverse-append :
    (xs ys : List Link)
    → number 0 (reverse (xs ++ ys))
      ≡ number 0 (reverse ys) ++ number (length (number 0 (reverse ys))) (number 0 (reverse xs))
number-reverse-append xs ys =
    rw
      (
        reverse-append xs ys,
        number-append 0 (reverse ys) (reverse xs),
        length-number,
        number-number,
      )
      (ap (λ n. number 0 (reverse ys) ++ number n (reverse xs)) (omega arith))

order_at_from :
    (i : ℕ) (xs : List Link) (k : ℕ) {l : Link}
    → get_elem? (number i xs) k ≡ some l
    → l.order ≡ i + k + 1
unfolding number
order_at_from i [] k h = absurd (cc)
order_at_from i (x ∷ xs) zero h = ground arith
order_at_from i (x ∷ xs) (suc k) h = omega (arith, order_at_from (i + 1) xs k h)

-- A text of entries is empty or stands in brackets, so there is no white space round it.
Entries-bracketed :
    {wide : Bytes → Bytes} {t : Bytes} {ls : List Link}
    → Entries wide t ls
    → (t ≡ []) ⊎ ((s : Bytes) × (t ≡ b'[' ∷ (s ++ b']' ∷ [])))
Entries-bracketed done = inl refl
Entries-bracketed (entry {interior} {rest} lacks e es) = ends (Entries-bracketed es)
  where
    ends :
        (rest ≡ []) ⊎ ((s : Bytes) × (rest ≡ b'[' ∷ (s ++ b']' ∷ [])))
        → (b'[' ∷ (interior ++ b']' ∷ rest) ≡ [])
          ⊎ ((s : Bytes) × (b'[' ∷ (interior ++ b']' ∷ rest) ≡ b'[' ∷ (s ++ b']' ∷ [])))
    ends (inl empty) = inr (interior, ap (λ r. b'[' ∷ (interior ++ b']' ∷ r)) empty)
    ends (inr (s, e)) = inr (
      interior ++ b']' ∷ b'[' ∷ s,
      ap (λ r. b'[' ∷ (interior ++ b']' ∷ r)) e
          ∙ ap (◌∷◌ b'[') (sym (append_assoc interior (b']' ∷ b'[' ∷ s) (b']' ∷ []))),
    )

pub trim_space-Entries :
    {wide : Bytes → Bytes} {t : Bytes} {ls : List Link} → Entries wide t ls → trim_space t ≡ t
trim_space-Entries es = trimmed (Entries-bracketed es)
  where
    trimmed :
        {t : Bytes} → (t ≡ []) ⊎ ((s : Bytes) × (t ≡ b'[' ∷ (s ++ b']' ∷ []))) → trim_space t ≡ t
    trimmed (inl e) = rw e (unfold trim_space in refl)
    trimmed (inr (s, e)) = rw e (trim_space_bracketed s)

pub Entries-append :
    {wide : Bytes → Bytes} {s t : Bytes} {xs ys : List Link}
    → Entries wide s xs
    → Entries wide t ys
    → Entries wide (s ++ t) (xs ++ ys)
Entries-append done ft = ft
Entries-append {wide} {t = t} {ys = ys} (entry {interior} {rest} {l} {ls} lacks e es) ft =
    subst (λ u. Entries wide (b'[' ∷ u) (l ∷ (ls ++ ys)))
      (sym (append_assoc interior (b']' ∷ rest) t)) (entry lacks e (Entries-append es ft))

module _ (wide : Bytes → Bytes) where
  -- A text of entries parses to their links, last entry first, numbered from 1.
  pub parse_gplink-Entries :
      {t : Bytes} {ls : List Link}
      → Entries wide t ls
      → parse_gplink wide t ≡ ok (number 0 (reverse ls))
  parse_gplink-Entries {t} {ls} es =
      (parse_gplink_iff wide t (number 0 (reverse ls))).1
        (ls, subst (λ u. Entries wide u ls) (sym (trim_space-Entries es)) es, refl)

  -- The link at index `i` of the result has order `i + 1`.
  pub parse_gplink-order :
      (s : Bytes) {links : List Link} (i : ℕ) {l : Link}
      → parse_gplink wide s ≡ ok links
      → get_elem? links i ≡ some l
      → l.order ≡ i + 1
  parse_gplink-order s {links} i {l} h at_i =
      let (ls, es, e) = (parse_gplink_iff wide s links).0 h in
      omega (arith, order_at_from 0 (reverse ls) i (rw e at at_i))

  -- If the attributes `s` and `t` parse, so does the text of `s` followed by that of `t`, both
  -- without the white space round them; the links of `t` come first, and those of `s` move down by
  -- the number of these.
  pub parse_gplink-append :
      (s t : Bytes) {xs ys : List Link}
      → parse_gplink wide s ≡ ok xs
      → parse_gplink wide t ≡ ok ys
      → parse_gplink wide (trim_space s ++ trim_space t) ≡ ok (ys ++ number (length ys) xs)
  parse_gplink-append s t {xs} {ys} hs ht =
      let (ls, es, e) = (parse_gplink_iff wide s xs).0 hs in
      let (ms, fs, f) = (parse_gplink_iff wide t ys).0 ht in
      parse_gplink-Entries (Entries-append es fs) ∙ ap ok (rw (e, f) (number-reverse-append ls ms))
