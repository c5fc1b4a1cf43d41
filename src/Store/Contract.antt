-- ===== src/Store/Contract.antt =====
-- The contract that the comments of internal/store/store.go state, and what follows from it.
use mathlib.Core.Path.{subst}
use opengpm.Base.{ok-injective, List, [], ◌∷◌, ◌≡◌, ◌↔◌, sym, ◌∙◌, Result, ok}
use opengpm.Store.{TenantId, DomainId, SnapshotId, Snapshot, Store}

-- A snapshot under the tenant and the domain that it is put under.
pub record Filed (T : Type 0) : Type 0 where
  pub tenant : TenantId
  pub domain : DomainId
  pub snapshot : Snapshot T

abbrev pub filed : {T : Type 0} → TenantId → DomainId → Snapshot T → Filed T
filed tenant domain snapshot = record { tenant = tenant; domain = domain; snapshot = snapshot }

module _ {S T E : Type 0} (store : Store S T E) where
  -- `PutSnapshot`, its result and the store behind it.
  abbrev pub put_id : S → Filed T → Result E SnapshotId
  put_id st f = (store.put_snapshot st f.tenant f.domain f.snapshot).0

  abbrev pub put : S → Filed T → S
  put st f = (store.put_snapshot st f.tenant f.domain f.snapshot).1

  -- `GetSnapshot` returns what was stored; equal content has an equal ID, whatever else is stored;
  -- and nothing that is stored is rewritten or deleted.
  pub record IsContentAddressed : Type 0 where
    pub get-put :
        (st : S) (f : Filed T) (id : SnapshotId)
        → put_id st f ≡ ok id
        → store.get_snapshot (put st f) f.tenant f.domain id ≡ ok f.snapshot
    pub same_id :
        (st st' : S) (f : Filed T) (id id' : SnapshotId)
        → put_id st f ≡ ok id
        → put_id st' f ≡ ok id'
        → id ≡ id'
    pub kept :
        (st : S) (f : Filed T) (tenant : TenantId) (domain : DomainId) (id : SnapshotId)
        (snapshot : Snapshot T)
        → store.get_snapshot st tenant domain id ≡ ok snapshot
        → store.get_snapshot (put st f) tenant domain id ≡ ok snapshot

  pub put_all : S → List (Filed T) → S
  put_all st [] = st
  put_all st (f ∷ fs) = put_all (put st f) fs

  module _ (contract : IsContentAddressed) where
    get-put_all :
        (st : S) (fs : List (Filed T)) (tenant : TenantId) (domain : DomainId) (id : SnapshotId)
        (snapshot : Snapshot T)
        → store.get_snapshot st tenant domain id ≡ ok snapshot
        → store.get_snapshot (put_all st fs) tenant domain id ≡ ok snapshot
    unfolding put_all
    get-put_all st [] tenant domain id snapshot h = h
    get-put_all st (f ∷ fs) tenant domain id snapshot h =
        get-put_all (put st f) fs tenant domain id snapshot
          (contract.kept st f tenant domain id snapshot h)

    -- For a store that keeps the contract, with any puts between two puts under one tenant and
    -- domain: the two snapshots have one ID exactly if they are equal, and the first one can still
    -- be got by its ID.
    pub put_id-eq_iff :
        (st : S) (tenant : TenantId) (domain : DomainId) (a b : Snapshot T)
        (between : List (Filed T)) (id id' : SnapshotId)
        → put_id st (filed tenant domain a) ≡ ok id
        → put_id (put_all (put st (filed tenant domain a)) between) (filed tenant domain b) ≡ ok id'
        → ((id ≡ id') ↔ (a ≡ b))
          × (store.get_snapshot
                (put (put_all (put st (filed tenant domain a)) between) (filed tenant domain b))
                tenant
                domain
                id
              ≡ ok a)
    put_id-eq_iff st tenant domain a b between id id' first second =
        let fa : Filed T = filed tenant domain a in
        let fb : Filed T = filed tenant domain b in
        let mid = put_all (put st fa) between in
        let still =
          contract.kept mid fb tenant domain id a (
            get-put_all (put st fa) between tenant domain id a (contract.get-put st fa id first)) in
        let latest = contract.get-put mid fb id' second in
        (
          (
            λ same. ok-injective (
                sym still
                ∙ subst (λ i. store.get_snapshot (put mid fb) tenant domain i ≡ ok b) (sym same)
                    latest),
            λ same.
                contract.same_id st mid fa id id' first
                  (subst (λ s. put_id mid (filed tenant domain s) ≡ ok id') (sym same) second),
          ),
          still,
        )
