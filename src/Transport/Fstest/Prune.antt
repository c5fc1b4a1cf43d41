-- ===== src/Transport/Fstest/Prune.antt =====
-- The tree that is left below the faults of `FaultFS` (internal/transport/fstest/fstest.go).
use opengpm.Base.{◌≤◌, List, [], ◌∷◌, ◌≡◌, refl, Option, none, some, arith}
use opengpm.Text.{Bytes}
use opengpm.Fs.{ReadDirError, open_error}
use opengpm.Fs.Tree.{
  Tree, leaf, branch, closed, Forest, bare, grown, entry_of, roots_of, depth, depth_all, unreadable,
  preorder,
}
use opengpm.Fs.Walk.{Visit, join_path}
use opengpm.Transport.Fstest.{fault_at}

-- A directory whose path has a fault fails with it.
unfoldable pub branch_unless :
    {D E X : Type 0} → Option E → D → Forest D (ReadDirError E X) → Tree D (ReadDirError E X)
branch_unless (some e) d f = closed d (open_error e)
branch_unless none d f = branch d f

unfoldable pub closed_unless :
    {D E X : Type 0} → Option E → D → ReadDirError E X → Tree D (ReadDirError E X)
closed_unless (some e) d y = closed d (open_error e)
closed_unless none d y = closed d y

module _ {D E X : Type 0} (dir_name : D → Bytes) (faults : List (Bytes × E)) where
  -- The tree below the faults.
  unfoldable mutual
    unfolding join_path branch_unless closed_unless

    pub prune : Bytes → Tree D (ReadDirError E X) → Tree D (ReadDirError E X)
    prune path (leaf d) = leaf d
    prune path (branch d f) = branch_unless (fault_at faults path) d (prune_all path f)
    prune path (closed d y) = closed_unless (fault_at faults path) d y

    pub prune_all : Bytes → Forest D (ReadDirError E X) → Forest D (ReadDirError E X)
    prune_all path bare = bare
    prune_all path (grown t f) =
        grown (prune (join_path path (dir_name (entry_of t))) t) (prune_all path f)

  -- What a walk from the root meets.
  unfoldable pub under :
      Option E → Bytes → Tree D (ReadDirError E X) → List (Visit D (ReadDirError E X))
  unfolding prune
  under (some e) root t = unreadable root (open_error e) ∷ []
  under none root t = preorder dir_name root (prune root t)

  unfoldable pub visits_under :
      Bytes → Tree D (ReadDirError E X) → List (Visit D (ReadDirError E X))
  unfolding under
  visits_under root t = under (fault_at faults root) root t

  entry_of-branch_unless :
      (o : Option E) (d : D) (f : Forest D (ReadDirError E X)) → entry_of (branch_unless o d f) ≡ d
  unfolding branch_unless
  entry_of-branch_unless (some e) d f = refl
  entry_of-branch_unless none d f = refl

  entry_of-closed_unless :
      (o : Option E) (d : D) (y : ReadDirError E X) → entry_of (closed_unless o d y) ≡ d
  unfolding closed_unless
  entry_of-closed_unless (some e) d y = refl
  entry_of-closed_unless none d y = refl

  pub entry_of-prune :
      (path : Bytes) (t : Tree D (ReadDirError E X)) → entry_of (prune path t) ≡ entry_of t
  unfolding prune
  entry_of-prune path (leaf d) = refl
  entry_of-prune path (branch d f) =
      entry_of-branch_unless (fault_at faults path) d (prune_all path f)
  entry_of-prune path (closed d y) = entry_of-closed_unless (fault_at faults path) d y

  pub roots_of-prune_all :
      (path : Bytes) (f : Forest D (ReadDirError E X)) → roots_of (prune_all path f) ≡ roots_of f
  unfolding prune roots_of
  roots_of-prune_all path bare = refl
  roots_of-prune_all path (grown t f) =
      rw (entry_of-prune (join_path path (dir_name (entry_of t))) t, roots_of-prune_all path f) refl

  depth-branch_unless :
      (o : Option E) (d : D) (f : Forest D (ReadDirError E X))
      → depth (branch_unless o d f) ≤ depth (branch d f)
  unfolding branch_unless depth
  depth-branch_unless (some e) d f = omega arith
  depth-branch_unless none d f = omega arith

  depth-closed_unless :
      (o : Option E) (d : D) (y : ReadDirError E X) → depth (closed_unless o d y) ≤ 1
  unfolding closed_unless depth
  depth-closed_unless (some e) d y = omega arith
  depth-closed_unless none d y = omega arith

  mutual
    unfolding prune depth

    pub depth-prune :
        (path : Bytes) (t : Tree D (ReadDirError E X)) → depth (prune path t) ≤ depth t
    depth-prune path (leaf d) = omega arith
    depth-prune path (closed d y) = depth-closed_unless (fault_at faults path) d y
    depth-prune path (branch d f) =
        let here = depth-branch_unless (fault_at faults path) d (prune_all path f) in
        let below = depth_all-prune_all path f in omega arith

    depth_all-prune_all :
        (path : Bytes) (f : Forest D (ReadDirError E X))
        → depth_all (prune_all path f) ≤ depth_all f
    depth_all-prune_all path bare = omega arith
    depth_all-prune_all path (grown t f) =
        let here = depth-prune (join_path path (dir_name (entry_of t))) t in
        let rest = depth_all-prune_all path f in omega arith
