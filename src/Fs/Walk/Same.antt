-- ===== src/Fs/Walk/Same.antt =====
-- A walk sees no more of a file system than `fs.ReadDir` and the `fs.Stat` of the root.
use opengpm.Base.{
  ℕ, zero, suc, List, [], ◌∷◌, ◌≡◌, refl, ap, ◌∙◌, Bool, true, false, Option, some, Result, ok, err,
}
use opengpm.Base.Sort.{Sorter}
use opengpm.Text.{Bytes}
use opengpm.Fs.{FileSystem, ReadDirError, fs_read_dir}
use opengpm.Fs.Tree.{seen}
use opengpm.Fs.Walk.{
  Visit, Verdict, go_on, skip_dir, skip_all, stop, Walk, join_path, walk_all, at_dir, after_entries,
  after_visit, walk_dir, fs_stat, walk_from, ended, walk,
}

walk_all-same :
    {D Y A : Type 0} (dir_name : D → Bytes) {step step' : Bytes → D → Walk D Y A}
    → ((path : Bytes) (d : D) → step path d ≡ step' path d)
    → (dir : Bytes) (ds : List D) → walk_all dir_name step dir ds ≡ walk_all dir_name step' dir ds
unfolding walk_all
walk_all-same dir_name h dir [] = refl
walk_all-same dir_name {step} {step'} h dir (d ∷ ds) =
    rw (h (join_path dir (dir_name d)) d, walk_all-same dir_name h dir ds) refl

module _ {F D E X A : Type 0} (dir_name : D → Bytes) (is_dir : D → Bool) (sorter sorter' : Sorter D)
    (read_file : F → Option (Result E (List D))) (fn : Visit D (ReadDirError E X) → Verdict A)
    (fsys fsys' : FileSystem F D E X) where
  at_dir-same :
      (v : Verdict A)
      → at_dir dir_name is_dir sorter read_file fn fsys v
        ≡ at_dir dir_name is_dir sorter' read_file fn fsys' v
  unfolding at_dir
  at_dir-same go_on = refl
  at_dir-same skip_dir = refl
  at_dir-same skip_all = refl
  at_dir-same (stop a) = refl

  module _ {step step' : Bytes → D → Walk D (ReadDirError E X) A}
      (same : (path : Bytes) (d : D) → step path d ≡ step' path d) where
    after_entries-same :
        (path : Bytes) (d : D) (r : Result (ReadDirError E X) (List D))
        → after_entries dir_name is_dir sorter read_file fn fsys step path d r
          ≡ after_entries dir_name is_dir sorter' read_file fn fsys' step' path d r
    unfolding after_entries
    after_entries-same path d (ok ds) =
        ap (λ w. record { calls = seen path d ∷ w.calls; verdict = w.verdict })
          (walk_all-same dir_name same path ds)
    after_entries-same path d (err y) =
        rw (at_dir-same (fn (record { path = path; entry = some d; problem = some y }))) refl

    after_visit-same :
        ((path : Bytes)
          → fs_read_dir dir_name sorter read_file fsys path
            ≡ fs_read_dir dir_name sorter' read_file fsys' path)
        → (path : Bytes) (d : D) (b : Bool) (v : Verdict A)
        → after_visit dir_name is_dir sorter read_file fn fsys step path d b v
          ≡ after_visit dir_name is_dir sorter' read_file fn fsys' step' path d b v
    unfolding after_visit at_dir
    after_visit-same reads path d true go_on =
        rw (reads path)
          (after_entries-same path d (fs_read_dir dir_name sorter' read_file fsys' path))
    after_visit-same reads path d true skip_dir = refl
    after_visit-same reads path d true skip_all = refl
    after_visit-same reads path d true (stop a) = refl
    after_visit-same reads path d false v = refl

  module _
      (reads : (path : Bytes)
        → fs_read_dir dir_name sorter read_file fsys path
          ≡ fs_read_dir dir_name sorter' read_file fsys' path) where
    walk_dir-same :
        (n : ℕ) (path : Bytes) (d : D)
        → walk_dir dir_name is_dir sorter read_file fn fsys n path d
          ≡ walk_dir dir_name is_dir sorter' read_file fn fsys' n path d
    unfolding walk_dir
    walk_dir-same zero path d = refl
    walk_dir-same (suc n) path d =
        after_visit-same (walk_dir-same n) reads path d (is_dir d) (fn (seen path d))

    module _ (stat_file : F → Result E D) where
      ended-same :
          (w : Walk D (ReadDirError E X) A)
          → ended dir_name is_dir sorter read_file fn fsys stat_file w
            ≡ ended dir_name is_dir sorter' read_file fn fsys' stat_file w
      unfolding ended
      ended-same w = refl

      walk_from-same :
          (fuel : ℕ) (root : Bytes) (r : Result (ReadDirError E X) D)
          → walk_from dir_name is_dir sorter read_file fn fsys stat_file fuel root r
            ≡ walk_from dir_name is_dir sorter' read_file fn fsys' stat_file fuel root r
      unfolding walk_from
      walk_from-same fuel root (err y) = refl
      walk_from-same fuel root (ok d) = walk_dir-same fuel root d

      pub walk-same :
          (fuel : ℕ) (root : Bytes)
          → fs_stat dir_name is_dir sorter read_file fn fsys stat_file (fsys.open_name root)
            ≡ fs_stat dir_name is_dir sorter' read_file fn fsys' stat_file (fsys'.open_name root)
          → walk dir_name is_dir sorter read_file fn fsys stat_file fuel root
            ≡ walk dir_name is_dir sorter' read_file fn fsys' stat_file fuel root
      unfolding walk
      walk-same fuel root stats = rw stats (
          ap (ended dir_name is_dir sorter read_file fn fsys stat_file) (
            walk_from-same fuel root
              (fs_stat dir_name is_dir sorter' read_file fn fsys' stat_file (fsys'.open_name root)))
          ∙ ended-same (
              walk_from dir_name is_dir sorter' read_file fn fsys' stat_file fuel root (
                fs_stat dir_name is_dir sorter' read_file fn fsys' stat_file
                  (fsys'.open_name root))))
