-- ===== src/Transport/Discover/Select.antt =====
-- What `DiscoverDCs` returns on each answer of the resolver.
use mathlib.Core.Path.{subst}
use mathlib.Core.List.{Perm, Pairwise, Pairwise-map}
use mathlib.Core.List.Perm
use mathlib.Core.List.Pairwise
use opengpm.Base.{
  Bool-set, List, [], ◌∷◌, map, false, ◌≡◌, ◌↔◌, refl, sym, ap, ◌∙◌, Result, ok, err, arith,
}
use opengpm.Base.Sort.{Sorter, IsWeakOrder, MayPrecede}
use opengpm.Base.Sort.Unique.{ordered_unique}
use opengpm.Text.{Bytes}
use opengpm.Transport.Discover.{
  Dc, Srv, DiscoverError, no_dcs, lookup_failed, less_dc, dc_of, Query, query, select, from_answer,
  discover_dcs,
}
use opengpm.Transport.Discover.Compare.{
  Rank, rank, RankLe, compare_dc-RankLe, RankLe-compare_dc, RankLe-refl, RankLe-trans,
  RankLe-antisymm, compare_dc_total,
}

less_dc-IsWeakOrder : IsWeakOrder less_dc
less_dc-IsWeakOrder = record {
  trans = λ a b c p q.
      RankLe-compare_dc a c (
        RankLe-trans (rank a) (rank b) (rank c) (compare_dc-RankLe a b p)
          (compare_dc-RankLe b c q));
  total = compare_dc_total;
}

-- The documented selection order.
abbrev pub InOrder : List Dc → Type 0
InOrder = Pairwise (λ a b. RankLe (rank a) (rank b))

module _ {E : Type 0} (lookup : Query → Result E (List Srv)) (sorter : Sorter Dc)
    (domain : Bytes) where
  select-ok :
      (dc : Dc) (dcs : List Dc)
      → select lookup sorter (dc ∷ dcs) ≡ ok (sorter.sort less_dc (dc ∷ dcs))
  unfolding select
  select-ok dc dcs = refl

  -- On an answer that lists a server, `DiscoverDCs` returns every server of it once, with the
  -- trailing dot of its name stripped, in the documented order.
  pub discover_dcs_ok :
      {a : Srv} {answers : List Srv}
      → lookup (query domain) ≡ ok (a ∷ answers)
      → (dcs : List Dc) × (discover_dcs lookup sorter domain ≡ ok dcs)
        × Perm dcs (map dc_of (a ∷ answers))
        × InOrder dcs
  unfolding discover_dcs select
  discover_dcs_ok {a} {answers} h =
      let all = map dc_of (a ∷ answers) in
      (
        sorter.sort less_dc all,
        rw h,
        sorter.sort-perm less_dc all,
        Pairwise.imp (λ x y p. compare_dc-RankLe x y p)
            (sorter.sort_ordered less_dc all less_dc-IsWeakOrder),
      )

  errors_of :
      (r : Result E (List Srv))
      → ((from_answer lookup sorter domain r ≡ err no_dcs) ↔ (r ≡ ok []))
        × ((e : E)
            → (from_answer lookup sorter domain r ≡ err (lookup_failed domain e)) ↔ (r ≡ err e))
  unfolding from_answer select
  errors_of (ok []) = ((λ h. refl, λ h. refl), λ e. (λ h. absurd (cc), λ h. absurd (cc)))
  errors_of (ok (a ∷ answers)) =
      ((λ h. absurd (cc), λ h. absurd (cc)), λ e. (λ h. absurd (cc), λ h. absurd (cc)))
  errors_of (err x) =
      ((λ h. absurd (cc), λ h. absurd (cc)), λ e. (λ h. ground arith, λ h. ground arith))

  -- An empty answer and a failed lookup are told apart, and there is no other error.
  pub discover_dcs_errors :
      ((discover_dcs lookup sorter domain ≡ err no_dcs) ↔ (lookup (query domain) ≡ ok []))
      × ((e : E)
          → (discover_dcs lookup sorter domain ≡ err (lookup_failed domain e))
            ↔ (lookup (query domain) ≡ err e))
  unfolding discover_dcs
  discover_dcs_errors = errors_of (lookup (query domain))

-- What is returned for each answer of the resolver.
pub data Discovers {E : Type 0} (domain : Bytes)
    : Result E (List Srv) → Result (DiscoverError E) (List Dc) → Type 0 where
  not_looked_up : (e : E) → Discovers domain (err e) (err (lookup_failed domain e))
  none_listed : Discovers domain (ok []) (err no_dcs)
  selected :
      {a : Srv} {answers : List Srv} (dcs : List Dc)
      → Perm dcs (map dc_of (a ∷ answers))
      → InOrder dcs
      → Discovers domain (ok (a ∷ answers)) (ok dcs)

module _ {E : Type 0} (lookup : Query → Result E (List Srv)) (sorter : Sorter Dc)
    (domain : Bytes) where
  from_answer-Discovers :
      (r : Result E (List Srv))
      → lookup (query domain) ≡ r
      → Discovers domain r (discover_dcs lookup sorter domain)
  from_answer-Discovers (err e) h =
      subst (Discovers domain (err e)) (sym (((discover_dcs_errors lookup sorter domain).1 e).1 h))
        (not_looked_up e)
  from_answer-Discovers (ok []) h =
      subst (Discovers domain (ok [])) (sym ((discover_dcs_errors lookup sorter domain).0.1 h))
        none_listed
  from_answer-Discovers (ok (a ∷ answers)) h =
      let (dcs, found, perm, ordered) = discover_dcs_ok lookup sorter domain h in
      subst (Discovers domain (ok (a ∷ answers))) (sym found) (selected dcs perm ordered)

  -- On an answer that lists a server, `DiscoverDCs` returns every server of it once, with the
  -- trailing dot of its name stripped, in the documented order. An answer without servers and a
  -- failed lookup are told apart, and there is no other error.
  pub discover_dcs-Discovers :
      Discovers domain (lookup (query domain)) (discover_dcs lookup sorter domain)
  discover_dcs-Discovers = from_answer-Discovers (lookup (query domain)) refl

abbrev at_rank : Rank → Dc
at_rank r = record { host = r.host; port = 0; priority = r.priority; weight = r.weight }

-- The order of the sort, read off the ranks: a proposition, as the test is Boolean.
abbrev RankMayPrecede : Rank → Rank → Type 0
RankMayPrecede a b = MayPrecede less_dc (at_rank a) (at_rank b)

ranked : (dcs : List Dc) → InOrder dcs → Pairwise RankMayPrecede (map rank dcs)
ranked dcs o =
    (Pairwise-map (λ a b. Bool-set (less_dc (at_rank b) (at_rank a)) false) rank).1
      (Pairwise.imp (λ a b p. RankLe-compare_dc (at_rank (rank a)) (at_rank (rank b)) p) o)

-- The selection is a function of the set of answers: two lookups that list the same servers in any
-- order, sorted by any two sorts, give the same priorities, weights and hosts in the same places.
pub discover_dcs_deterministic :
    {E F : Type 0} (lookup : Query → Result E (List Srv)) (lookup' : Query → Result F (List Srv))
    (sorter sorter' : Sorter Dc) (domain : Bytes) {a a' : Srv} {answers answers' : List Srv}
    {dcs dcs' : List Dc}
    → lookup (query domain) ≡ ok (a ∷ answers)
    → lookup' (query domain) ≡ ok (a' ∷ answers')
    → Perm (a ∷ answers) (a' ∷ answers')
    → discover_dcs lookup sorter domain ≡ ok dcs
    → discover_dcs lookup' sorter' domain ≡ ok dcs'
    → map rank dcs ≡ map rank dcs'
discover_dcs_deterministic lookup lookup' sorter sorter' domain {dcs = dcs} {dcs' = dcs'} h h' p d
      d' =
    let (xs, found, perm, ordered) = discover_dcs_ok lookup sorter domain h in
    let (ys, found', perm', ordered') = discover_dcs_ok lookup' sorter' domain h' in
    let e : xs ≡ dcs = cc (found, d) in
    let e' : ys ≡ dcs' = cc (found', d') in
    let same : Perm xs ys = Perm.trans perm (Perm.trans (Perm.map dc_of p) (Perm.symm perm')) in
    sym (ap (map rank) e)
    ∙ ordered_unique RankMayPrecede (λ a b. Bool-set _ false) every antisymm (ranked xs ordered)
        (ranked ys ordered') (Perm.map rank same)
    ∙ ap (map rank) e'
  where
    every : (a : Rank) → RankMayPrecede a a
    every a = RankLe-compare_dc (at_rank a) (at_rank a) (RankLe-refl a)

    antisymm : (a b : Rank) → RankMayPrecede a b → RankMayPrecede b a → a ≡ b
    antisymm a b p q =
        RankLe-antisymm a b (compare_dc-RankLe (at_rank a) (at_rank b) p)
          (compare_dc-RankLe (at_rank b) (at_rank a) q)
