-- ===== src/Transport/Fstest/Walks.antt =====
-- A walk below `FaultFS` of internal/transport/fstest/fstest.go: what a test sees that denies a
-- subtree.
use mathlib.Core.Path.{subst}
use mathlib.Core.List.{Perm}
use mathlib.Core.List.Perm
use opengpm.Base.{ℕ, ◌≤◌, List, [], ◌∷◌, ◌≡◌, sym, ap, ◌∙◌, Bool, Option, Result, ok, arith}
use opengpm.Base.Sort.{Sorter}
use opengpm.Text.{Bytes}
use opengpm.Fs.{FileSystem, ReadDirError, open_error}
use opengpm.Fs.Tree.{
  Tree, leaf, branch, closed, Forest, bare, grown, entry_of, depth, unreadable, Serves, ServesAll,
}
use opengpm.Fs.Walk.{Visit, Verdict, go_on, Walk, join_path, walk}
use opengpm.Fs.Walk.Visits.{SkipsErrors, walk-preorder, walk-refused}
use opengpm.Transport.Fstest.{fault_fs}
use opengpm.Transport.Fstest.Faults.{open_only, Faulted, fails, passes, fault_fs-Faulted}
use opengpm.Transport.Fstest.Prune.{
  branch_unless, closed_unless, prune, prune_all, under, visits_under, entry_of-prune,
  roots_of-prune_all, depth-prune,
}

module _ {F D E X : Type 0} (dir_name : D → Bytes) (is_dir : D → Bool) (sorter : Sorter D)
    (read_file : F → Option (Result E (List D))) (inner : FileSystem F D E X)
    (faults : List (Bytes × E)) where
  ServesAlone : Bytes → Tree D (ReadDirError E X) → Type 0
  ServesAlone = Serves dir_name is_dir sorter read_file (open_only dir_name sorter read_file inner)

  branch_unless-Serves :
      (path : Bytes) (d : D) (f : Forest D (ReadDirError E X)) {o : Option E}
      → Faulted dir_name sorter read_file inner faults path o
      → ServesAlone path (branch d f)
      → ServesAll dir_name is_dir sorter read_file
          (fault_fs inner faults)
          path
          (prune_all dir_name faults path f)
      → Serves dir_name is_dir sorter read_file
          (fault_fs inner faults)
          path
          (branch_unless o d (prune_all dir_name faults path f))
  unfolding branch_unless Serves ServesAlone
  branch_unless-Serves path d f (fails e opens reads) (dir, listed, s) all = (dir, reads)
  branch_unless-Serves path d f (passes opens reads) (dir, (ds, lists, same), s) all = (
    dir,
    (ds, reads ∙ lists, subst (Perm ds) (sym (roots_of-prune_all dir_name faults path f)) same),
    all,
  )

  closed_unless-Serves :
      (path : Bytes) (d : D) (y : ReadDirError E X) {o : Option E}
      → Faulted dir_name sorter read_file inner faults path o
      → ServesAlone path (closed d y)
      → Serves dir_name is_dir sorter read_file (fault_fs inner faults) path (closed_unless o d y)
  unfolding closed_unless Serves ServesAlone
  closed_unless-Serves path d y (fails e opens reads) (dir, s) = (dir, reads)
  closed_unless-Serves path d y (passes opens reads) (dir, s) = (dir, reads ∙ s)

  mutual
    unfolding prune Serves ServesAlone

    prune-Serves :
        (path : Bytes) (t : Tree D (ReadDirError E X))
        → ServesAlone path t
        → Serves dir_name is_dir sorter read_file
            (fault_fs inner faults)
            path
            (prune dir_name faults path t)
    prune-Serves path (leaf d) s = s
    prune-Serves path (closed d y) s =
        closed_unless-Serves path d y (fault_fs-Faulted dir_name sorter read_file inner faults path)
          s
    prune-Serves path (branch d f) (dir, listed, all) =
        branch_unless-Serves path d f (fault_fs-Faulted dir_name sorter read_file inner faults path)
          (dir, listed, all) (prune_all-ServesAll path f all)

    prune_all-ServesAll :
        (path : Bytes) (f : Forest D (ReadDirError E X))
        → ServesAll dir_name is_dir sorter read_file
            (open_only dir_name sorter read_file inner)
            path
            f
        → ServesAll dir_name is_dir sorter read_file
            (fault_fs inner faults)
            path
            (prune_all dir_name faults path f)
    prune_all-ServesAll path bare s = s
    prune_all-ServesAll path (grown t f) (s, all) = (
      subst
          (λ d.
            Serves dir_name is_dir sorter read_file (fault_fs inner faults)
              (join_path path (dir_name d))
              (prune dir_name faults (join_path path (dir_name (entry_of t))) t))
          (sym (entry_of-prune dir_name faults (join_path path (dir_name (entry_of t))) t))
          (prune-Serves (join_path path (dir_name (entry_of t))) t s),
      prune_all-ServesAll path f all,
    )

  module _ {A : Type 0} {fn : Visit D (ReadDirError E X) → Verdict A} (skips : SkipsErrors fn)
      (stat_file : F → Result E D) where
    abbrev faulted_walk : ℕ → Bytes → Walk D (ReadDirError E X) A
    faulted_walk = walk dir_name is_dir sorter read_file fn (fault_fs inner faults) stat_file

    walk-under :
        (fuel : ℕ) (root : Bytes) (t : Tree D (ReadDirError E X)) (f : F) {o : Option E}
        → Faulted dir_name sorter read_file inner faults root o
        → inner.open_name root ≡ ok f
        → stat_file f ≡ ok (entry_of t)
        → depth t ≤ fuel
        → ServesAlone root t
        → Perm (faulted_walk fuel root).calls (under dir_name faults o root t)
          × ((faulted_walk fuel root).verdict ≡ go_on)
    unfolding under
    walk-under fuel root t f (fails e refuses reads) opens stats deep s =
        let same =
          walk-refused dir_name is_dir sorter read_file skips (fault_fs inner faults) stat_file fuel
            root e refuses in
        (
          subst (λ w. Perm w.calls (unreadable root (open_error e) ∷ [])) (sym same) Perm.rfl,
          ap (λ w. w.verdict) same,
        )
    walk-under fuel root t f (passes same reads) opens stats deep s =
        let narrower = depth-prune dir_name faults root t in
        walk-preorder dir_name is_dir sorter read_file skips (fault_fs inner faults) stat_file fuel
          root (prune dir_name faults root t) f (same ∙ opens)
          (stats ∙ ap ok (sym (entry_of-prune dir_name faults root t))) (omega arith)
          (prune-Serves root t s)

    -- Below `FaultFS` an `fs.WalkDir` calls the callback, up to order, for everything that the tree
    -- has outside the faulted directories, each once; for a faulted directory once more, with its
    -- error, and for nothing below it; and if the root itself is faulted, only with the error. It
    -- returns nil. This is for a callback that returns nil and `SkipDir` on an error, for a tree that
    -- the inner file system serves by `Open` alone, whose root opens and has its entry as `Stat`, and
    -- for fuel that is at least its depth.
    pub walk-fault_fs :
        (fuel : ℕ) (root : Bytes) (t : Tree D (ReadDirError E X)) (f : F)
        → inner.open_name root ≡ ok f
        → stat_file f ≡ ok (entry_of t)
        → depth t ≤ fuel
        → Serves dir_name is_dir sorter read_file (open_only dir_name sorter read_file inner) root t
        → Perm (faulted_walk fuel root).calls (visits_under dir_name faults root t)
          × ((faulted_walk fuel root).verdict ≡ go_on)
    unfolding visits_under ServesAlone
    walk-fault_fs fuel root t f =
        walk-under fuel root t f (fault_fs-Faulted dir_name sorter read_file inner faults root)
