-- ===== src/Capture/Entries.antt =====
-- The order of the fixture of scripts/capture-gpo/main.go.
use mathlib.Core.Path.{subst}
use mathlib.Core.List.{Perm, Pairwise}
use mathlib.Core.List.Pairwise
use opengpm.Base.{List, [], ◌∷◌, ◌≡◌, ◌≢◌, ◌⊎◌, refl, sym, ◌∙◌, inl, inr, true, Bool-cases, some}
use opengpm.Base.Int.{is_neg}
use opengpm.Base.Sort.{Sorter, IsWeakOrder, MayPrecede}
use opengpm.Text.{Bytes, equal, equal_iff}
use opengpm.Transport.Discover.{compare_text}
use opengpm.Transport.Discover.Compare.{
  TextLe, TextLe-refl, TextLe-trans, TextLe-antisymm, TextLe-total,
}
use opengpm.Capture.Kept.{Sifted, keep-Sifted}
use opengpm.Capture.{LdapEntry, Entry, cn, less_entry, keep, capture}

-- By `cn`, and where these agree by the DN.
pub record EntryLe (a b : Entry) : Type 0 where
  pub by_cn : TextLe (cn a) (cn b)
  pub by_dn : cn a ≡ cn b → TextLe a.dn b.dn

less_entry-cases :
    (a b : Entry)
    → ((cn a ≡ cn b) × (less_entry a b ≡ is_neg (compare_text a.dn b.dn)))
      ⊎ ((cn a ≢ cn b) × (less_entry a b ≡ is_neg (compare_text (cn a) (cn b))))
unfolding less_entry
less_entry-cases a b = elim (Bool-cases (equal (cn a) (cn b))) [
  | inl e ↦ inl ((equal_iff (cn a) (cn b)).0 e, rw e refl)
  | inr e ↦ inr ((λ same. absurd (cc ((equal_iff (cn a) (cn b)).1 same))), rw e refl)
]

EntryLe-less_entry : (a b : Entry) → EntryLe a b → MayPrecede less_entry a b
unfolding TextLe
EntryLe-less_entry a b le = elim (less_entry-cases b a) [
  | inl (same, e) ↦ e ∙ le.by_dn (sym same)
  | inr (differ, e) ↦ e ∙ le.by_cn
]

less_entry-EntryLe : (a b : Entry) → MayPrecede less_entry a b → EntryLe a b
unfolding TextLe
less_entry-EntryLe a b h = elim (less_entry-cases b a) [
  | inl (same, e) ↦ record {
    by_cn = subst (λ s. TextLe (cn a) s) (sym same) (TextLe-refl (cn a));
    by_dn = λ _. sym e ∙ h;
  }
  | inr (differ, e) ↦ record { by_cn = sym e ∙ h; by_dn = λ same. absurd (differ (sym same)) }
]

EntryLe-trans : (a b c : Entry) → EntryLe a b → EntryLe b c → EntryLe a c
EntryLe-trans a b c p q = record {
  by_cn = TextLe-trans (cn a) (cn b) (cn c) p.by_cn q.by_cn;
  by_dn = λ same.
      let back = subst (TextLe (cn b)) (sym same) q.by_cn in
      let left = TextLe-antisymm (cn a) (cn b) p.by_cn back in
      TextLe-trans a.dn b.dn c.dn (p.by_dn left) (q.by_dn (sym left ∙ same));
}

EntryLe-total : (a b : Entry) → less_entry a b ≡ true → EntryLe a b
EntryLe-total a b h = elim (less_entry-cases a b) [
  | inl (same, e) ↦ record {
    by_cn = subst (TextLe (cn a)) same (TextLe-refl (cn a));
    by_dn = λ _. TextLe-total a.dn b.dn (sym e ∙ h);
  }
  | inr (differ, e) ↦ record {
    by_cn = TextLe-total (cn a) (cn b) (sym e ∙ h);
    by_dn = λ same. absurd (differ same);
  }
]

less_entry-IsWeakOrder : IsWeakOrder less_entry
less_entry-IsWeakOrder = record {
  trans = λ a b c p q.
      EntryLe-less_entry a c
        (EntryLe-trans a b c (less_entry-EntryLe a b p) (less_entry-EntryLe b c q));
  total = λ a b h. EntryLe-less_entry a b (EntryLe-total a b h);
}

-- If the search found anything, the fixture has a record of each object found but those whose
-- display names start with `oracle-gplink-`, each once, sorted by its name and then by its DN. A
-- record has the object's DN and its attributes: a single value as a string and others as a list,
-- those of `nTSecurityDescriptor` and `objectGUID` in base64; of attributes with one name, the last.
pub capture_ordered :
    (base64 : Bytes → Bytes) (display_name : LdapEntry → Bytes) (sorter : Sorter Entry)
    (found : List LdapEntry)
    → found ≢ []
    → (es : List Entry) × (capture base64 display_name sorter found ≡ some es)
      × ((kept : List Entry) × Sifted base64 display_name found kept × Perm es kept)
      × Pairwise EntryLe es
unfolding capture
capture_ordered base64 display_name sorter [] some_found = absurd (some_found refl)
capture_ordered base64 display_name sorter (ent ∷ found) some_found =
    let kept = keep base64 display_name (ent ∷ found) in
    (
      sorter.sort less_entry kept,
      refl,
      (kept, keep-Sifted base64 display_name (ent ∷ found), sorter.sort-perm less_entry kept),
      Pairwise.imp (λ a b h. less_entry-EntryLe a b h)
          (sorter.sort_ordered less_entry kept less_entry-IsWeakOrder),
    )

-- What is captured was captured from something.
pub record IsCapture (base64 : Bytes → Bytes) (display_name : LdapEntry → Bytes)
    (found : List LdapEntry) (es : List Entry) : Type 0 where
  pub some_found : found ≢ []
  pub all_kept : (kept : List Entry) × Sifted base64 display_name found kept × Perm es kept
  pub in_order : Pairwise EntryLe es

pub capture-IsCapture :
    (base64 : Bytes → Bytes) (display_name : LdapEntry → Bytes) (sorter : Sorter Entry)
    (found : List LdapEntry) {es : List Entry}
    → capture base64 display_name sorter found ≡ some es
    → IsCapture base64 display_name found es
unfolding capture
capture-IsCapture base64 display_name sorter [] h = cc
capture-IsCapture base64 display_name sorter (ent ∷ found) {es} h =
    let (es', made, kept, ordered) =
      capture_ordered base64 display_name sorter (ent ∷ found) (λ e. cc) in
    let same : es' ≡ es = cc in
    subst (IsCapture base64 display_name (ent ∷ found)) same
      (record { some_found = λ e. cc; all_kept = kept; in_order = ordered })
