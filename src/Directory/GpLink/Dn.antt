-- ===== src/Directory/GpLink/Dn.antt =====
-- What `gpoGUIDFromDN` accepts: a grammar of DNs, and the parser against it.
use mathlib.Core.Path.{subst}
use opengpm.Base.{
  suc, [], ◌∷◌, ◌++◌, ◌≡◌, ◌≢◌, ◌⊎◌, inl, inr, refl, sym, ap, ◌∙◌, Bool, true, not, ◌||◌, ltb,
  Option-cases, ok, arith, length, take, drop, length-append, take-append-drop, take_append,
  drop_append, append-nil,
}
use opengpm.Text.{Bytes, Lacks}
use opengpm.Text.Search.{
  index_byte, index_byte-some, index_byte-none, index_byte-append, index_byte-Lacks, take_before,
}
use opengpm.Text.Case.{equal_fold, length-equal_fold, to_upper}
use opengpm.Directory.GpLink.{guid_rdn, starts_fold, opens, closes, leading_rdn, gpo_guid_from_dn}
use opengpm.Model.Som.{Guid}

pub starts_fold-append :
    (a p t : Bytes)
    → equal_fold a p ≡ true
    → (starts_fold p (a ++ t) ≡ true) × (drop (length p) (a ++ t) ≡ t)
unfolding starts_fold
starts_fold-append a p t h =
    let same = length-equal_fold a p h in
    (
      rw (← same, take_append a t) (ground (arith, length-append a t, length-equal_fold a p h)),
      rw (← same) (drop_append a t),
    )

pub starts_fold-splits :
    (p s : Bytes)
    → starts_fold p s ≡ true
    → (s ≡ take (length p) s ++ drop (length p) s) × (equal_fold (take (length p) s) p ≡ true)
unfolding starts_fold
starts_fold-splits p s h = (sym (take-append-drop (length p) s), ground arith)

-- `{`, at least one byte, `}`.
pub IsBraced : Bytes → Type 0
IsBraced g = (mid : Bytes) × (mid ≢ []) × (g ≡ b'{' ∷ (mid ++ b'}' ∷ []))

closes-append : (s : Bytes) → closes (s ++ b'}' ∷ []) ≡ true
unfolding closes
closes-append [] = refl
closes-append (c ∷ []) = refl
closes-append (c ∷ d ∷ s) = closes-append (d ∷ s)

closes-splits : (s : Bytes) → closes s ≡ true → (m : Bytes) × (s ≡ m ++ b'}' ∷ [])
unfolding closes
closes-splits [] h = cc
closes-splits (c ∷ []) h = ([], ground arith)
closes-splits (c ∷ d ∷ s) h = let (m, e) = closes-splits (d ∷ s) h in (c ∷ m, ap (◌∷◌ c) e)

abbrev passes : Bytes → Bool
passes g = not (ltb (length g) 3 || not (opens g) || not (closes g))

pub passes-IsBraced : (g : Bytes) → passes g ≡ true → IsBraced g
unfolding IsBraced opens
passes-IsBraced [] h = cc
passes-IsBraced (c ∷ []) h = ground arith
passes-IsBraced (c ∷ d ∷ s) h =
    let (m, e) = closes-splits (d ∷ s) (unfold closes in ground arith) in
    (
      m,
      λ none_between. absurd (unfold closes in ground (arith, ap length e)),
      unfold closes in ground arith,
    )

pub IsBraced-passes : (g : Bytes) → IsBraced g → passes g ≡ true
unfolding IsBraced opens closes
IsBraced-passes g ([], ne, e) = absurd (ne refl)
IsBraced-passes g (c ∷ m, ne, e) =
    rw e (ground (arith, closes-append (c ∷ m), length-append m (b'}' ∷ [])))

-- The leading RDN holds no comma, and the DN ends there or goes on with one.
pub EndsRdn : Bytes → Type 0
EndsRdn t = (t ≡ []) ⊎ ((u : Bytes) × (t ≡ b',' ∷ u))

leading_rdn-splits :
    (dn : Bytes)
    → (t : Bytes) × (dn ≡ leading_rdn dn ++ t) × Lacks b',' (leading_rdn dn) × EndsRdn t
unfolding leading_rdn EndsRdn
leading_rdn-splits dn = elim (Option-cases (index_byte dn b',')) [
  | inl e ↦ (
    [],
    rw (e, leading_rdn) (sym (append-nil dn)),
    rw (e, leading_rdn) (index_byte-none dn b',' e),
    inl refl,
  )
  | inr (i, e) ↦
      let cut = index_byte-some dn b',' e in
      (
        b',' ∷ drop (suc i) dn,
        rw (e, leading_rdn) cut.splits,
        rw (e, leading_rdn) cut.before,
        inr (drop (suc i) dn, refl),
      )
]

leading_rdn-append : (rdn t : Bytes) → Lacks b',' rdn → EndsRdn t → leading_rdn (rdn ++ t) ≡ rdn
unfolding leading_rdn EndsRdn
leading_rdn-append rdn t h (inl e) =
    rw (e, append-nil rdn) (rw (index_byte-Lacks rdn b',' h, leading_rdn))
leading_rdn-append rdn t h (inr (u, e)) =
    rw e (rw (index_byte-append rdn b',' u h, leading_rdn) (take_before rdn b',' u))

-- A DN whose leading RDN is `cn={...}`, the attribute type in any case, and the GUID it names.
pub record IsGuidDn (wide : Bytes → Bytes) (dn : Bytes) (g : Guid) : Type 0 where
  pub attribute : Bytes
  pub guid : Bytes
  pub rest : Bytes
  pub splits : dn ≡ (attribute ++ guid) ++ rest
  pub is_cn : equal_fold attribute guid_rdn ≡ true
  pub braced : IsBraced guid
  pub no_comma : Lacks b',' (attribute ++ guid)
  pub rdn_ends : EndsRdn rest
  pub canonical : g ≡ to_upper wide guid

module _ (wide : Bytes → Bytes) where
  pub gpo_guid_from_dn_sound :
      (dn : Bytes) {g : Guid} → gpo_guid_from_dn wide dn ≡ ok g → IsGuidDn wide dn g
  unfolding gpo_guid_from_dn
  gpo_guid_from_dn_sound dn {g} h =
      let (t, e, lacks, ends) = leading_rdn-splits dn in
      let starts : starts_fold guid_rdn (leading_rdn dn) ≡ true = ground arith in
      let (whole, folds) = starts_fold-splits guid_rdn (leading_rdn dn) starts in
      record {
        attribute = take (length guid_rdn) (leading_rdn dn);
        guid = drop (length guid_rdn) (leading_rdn dn);
        rest = t;
        splits = e ∙ ap (λ r. r ++ t) whole;
        is_cn = folds;
        braced = passes-IsBraced _ (ground arith);
        no_comma = subst (λ r. Lacks b',' r) whole lacks;
        rdn_ends = ends;
        canonical = ground arith;
      }

  pub gpo_guid_from_dn_complete :
      (dn : Bytes) {g : Guid} → IsGuidDn wide dn g → gpo_guid_from_dn wide dn ≡ ok g
  unfolding gpo_guid_from_dn
  gpo_guid_from_dn_complete dn {g} d =
      let (starts, guid) = starts_fold-append d.attribute guid_rdn d.guid d.is_cn in
      rw
        (
          d.splits,
          leading_rdn-append (d.attribute ++ d.guid) d.rest d.no_comma d.rdn_ends,
          guid,
          d.canonical,
        )
        (ground (arith, IsBraced-passes d.guid d.braced))
