-- ===== src/Fs/Walk.antt =====
-- `fs.WalkDir` of Go's io/fs. The fuel bounds the depth of directories that it goes down to. The
-- callback is a function of what it is called with.
pub mod Visits
pub mod Same
use opengpm.Base.{
  ℕ, zero, suc, List, [], ◌∷◌, ◌++◌, Bool, true, false, Option, none, some, if◌then◌else◌, Result,
  ok, err,
}
use opengpm.Base.Sort.{Sorter}
use opengpm.Text.{Bytes, codes, equal}
use opengpm.Fs.{FileSystem, ReadDirError, open_error, read_error, fs_read_dir}

-- A call of the callback: the path, the entry unless the root could not be read, and an error.
pub record Visit (D Y : Type 0) : Type 0 where
  pub path : Bytes
  pub entry : Option D
  pub problem : Option Y

-- What the callback answers: nil, `SkipDir`, `SkipAll` or an error of its own.
pub data Verdict (A : Type 0) : Type 0 where
  go_on skip_dir skip_all : Verdict A
  stop : A → Verdict A

pub record Walk (D Y A : Type 0) : Type 0 where
  pub calls : List (Visit D Y)
  pub verdict : Verdict A

-- `path.Join(dir, name)` for a clean `dir` and a name of one element.
unfoldable pub join_path : Bytes → Bytes → Bytes
join_path dir name = if equal dir (codes ".") then name else dir ++ b'/' ∷ name

module _ {D Y A : Type 0} (dir_name : D → Bytes) where
  -- The calls of both, if the first lets the walk go on; a `SkipDir` ends the directory.
  unfoldable pub and_then : Walk D Y A → Walk D Y A → Walk D Y A
  and_then r rest = elim r.verdict [
    | go_on ↦ record { calls = r.calls ++ rest.calls; verdict = rest.verdict }
    | skip_dir ↦ record { calls = r.calls; verdict = go_on }
    | skip_all ↦ r
    | stop a ↦ r
  ]

  -- The loop over the entries of `dir`.
  unfoldable pub walk_all : (Bytes → D → Walk D Y A) → Bytes → List D → Walk D Y A
  unfolding and_then
  walk_all step dir [] = record { calls = []; verdict = go_on }
  walk_all step dir (d ∷ ds) = and_then (step (join_path dir (dir_name d)) d) (walk_all step dir ds)

module _ {F D E X A : Type 0} (dir_name : D → Bytes) (is_dir : D → Bool) (sorter : Sorter D)
    (read_file : F → Option (Result E (List D))) (fn : Visit D (ReadDirError E X) → Verdict A)
    (fsys : FileSystem F D E X) where
  -- A verdict at a directory: `SkipDir` is meant for it.
  unfoldable pub at_dir : Verdict A → Verdict A
  at_dir skip_dir = go_on
  at_dir v = v

  unfoldable pub after_entries :
      (Bytes → D → Walk D (ReadDirError E X) A)
      → Bytes
      → D
      → Result (ReadDirError E X) (List D)
      → Walk D (ReadDirError E X) A
  unfolding walk_all at_dir
  after_entries step path d (ok ds) =
      let rest = walk_all dir_name step path ds in
      record {
        calls = record { path = path; entry = some d; problem = none } ∷ rest.calls;
        verdict = rest.verdict;
      }
  after_entries step path d (err y) = record {
    calls =
        record { path = path; entry = some d; problem = none }
        ∷ record { path = path; entry = some d; problem = some y }
        ∷ [];
    verdict = at_dir (fn (record { path = path; entry = some d; problem = some y }));
  }

  unfoldable pub after_visit :
      (Bytes → D → Walk D (ReadDirError E X) A)
      → Bytes
      → D
      → Bool
      → Verdict A
      → Walk D (ReadDirError E X) A
  unfolding after_entries at_dir
  after_visit step path d true go_on =
      after_entries step path d (fs_read_dir dir_name sorter read_file fsys path)
  after_visit step path d true v = record {
    calls = record { path = path; entry = some d; problem = none } ∷ [];
    verdict = at_dir v;
  }
  after_visit step path d false v = record {
    calls = record { path = path; entry = some d; problem = none } ∷ [];
    verdict = v;
  }

  -- `walkDir`
  unfoldable pub walk_dir : ℕ → Bytes → D → Walk D (ReadDirError E X) A
  unfolding after_visit
  walk_dir zero path d = record { calls = []; verdict = go_on }
  walk_dir (suc n) path d =
      after_visit (walk_dir n) path d (is_dir d)
        (fn (record { path = path; entry = some d; problem = none }))

  module _ (stat_file : F → Result E D) where
    -- `fs.Stat` of a file system that is no `fs.StatFS`.
    unfoldable pub fs_stat : Result E F → Result (ReadDirError E X) D
    fs_stat (err e) = err (open_error e)
    fs_stat (ok f) = elim (stat_file f) [ err e ↦ err (read_error e) | ok d ↦ ok d ]

    unfoldable pub walk_from : ℕ → Bytes → Result (ReadDirError E X) D → Walk D (ReadDirError E X) A
    unfolding walk_dir
    walk_from fuel root (err y) = record {
      calls = record { path = root; entry = none; problem = some y } ∷ [];
      verdict = fn (record { path = root; entry = none; problem = some y });
    }
    walk_from fuel root (ok d) = walk_dir fuel root d

    -- `SkipDir` and `SkipAll` end a walk without an error.
    unfoldable pub ended : Walk D (ReadDirError E X) A → Walk D (ReadDirError E X) A
    ended w = elim w.verdict [ stop a ↦ w | _ ↦ record { calls = w.calls; verdict = go_on } ]

    -- `fs.WalkDir`
    unfoldable pub walk : ℕ → Bytes → Walk D (ReadDirError E X) A
    unfolding walk_from fs_stat ended
    walk fuel root = ended (walk_from fuel root (fs_stat (fsys.open_name root)))
