-- ===== src/Fs/Walk/Visits.antt =====
-- What a walk visits, with a callback that goes on and skips what it cannot list.
use mathlib.Core.Path.{subst}
use mathlib.Core.List.{Perm, Permᴰ, Perm-prop, perm_append_comm}
use mathlib.Core.List.Perm
use opengpm.Base.{
  ℕ, zero, suc, ◌≤◌, List, [], ◌∷◌, ◌++◌, ◌≡◌, refl, sym, ap, ◌∙◌, append_assoc, Bool, true, false,
  Option, none, some, Result, ok, err, arith,
}
use opengpm.Base.Sort.{Sorter}
use opengpm.Text.{Bytes}
use opengpm.Fs.{FileSystem, ReadDirError, open_error, fs_read_dir}
use opengpm.Fs.Tree.{
  Tree, leaf, branch, closed, Forest, bare, grown, entry_of, roots_of, depth, depth_all, seen,
  refused, unreadable, preorder, preorder_all, Serves, ServesAll,
}
use opengpm.Fs.Walk.{
  Visit, Verdict, go_on, skip_dir, Walk, join_path, and_then, walk_all, at_dir, after_entries,
  after_visit, walk_dir, fs_stat, walk_from, ended, walk,
}

-- A callback that goes on, and answers an error by `SkipDir`.
pub record SkipsErrors {D Y A : Type 0} (fn : Visit D Y → Verdict A) : Type 0 where
  pub goes_on : (path : Bytes) (d : D) → fn (seen path d) ≡ go_on
  pub skips :
      (path : Bytes) (entry : Option D) (y : Y)
      → fn (record { path = path; entry = entry; problem = some y }) ≡ skip_dir

flat : {A B : Type 0} → (A → List B) → List A → List B
flat f [] = []
flat f (x ∷ xs) = f x ++ flat f xs

swapped : {B : Type 0} (u v r : List B) → Perm (u ++ (v ++ r)) (v ++ (u ++ r))
swapped u v r =
    subst (λ l. Perm l (v ++ (u ++ r))) (append_assoc u v r)
      (subst (λ l. Perm ((u ++ v) ++ r) l) (append_assoc v u r)
        (Perm.append_right r (perm_append_comm u v)))

flat-Permᴰ :
    {A B : Type 0} (f : A → List B) {xs ys : List A} → Permᴰ xs ys → Perm (flat f xs) (flat f ys)
unfolding flat
flat-Permᴰ f Permᴰ.nil = Perm.nil
flat-Permᴰ f (Permᴰ.cons {a} {b} {l₁} {l₂} e d) =
    subst (λ y. Perm (f a ++ flat f l₁) (f y ++ flat f l₂)) e
      (Perm.append_left (f a) (flat-Permᴰ f d))
flat-Permᴰ f (Permᴰ.swap {a} {b} {a'} {b'} {l} e g) =
    subst (λ y. Perm (f a ++ (f b ++ flat f l)) (f a' ++ (f y ++ flat f l))) e
      (subst (λ y. Perm (f a ++ (f b ++ flat f l)) (f y ++ (f a ++ flat f l))) g
        (swapped (f a) (f b) (flat f l)))
flat-Permᴰ f (Permᴰ.trans d e) = Perm.trans (flat-Permᴰ f d) (flat-Permᴰ f e)

flat-Perm :
    {A B : Type 0} (f : A → List B) {xs ys : List A} → Perm xs ys → Perm (flat f xs) (flat f ys)
flat-Perm f = ∥∥₁_rec Perm-prop (flat-Permᴰ f)

module _ {D Y A : Type 0} (dir_name : D → Bytes) (step : Bytes → D → Walk D Y A)
    (goes_on : (path : Bytes) (d : D) → (step path d).verdict ≡ go_on) where
  abbrev pub calls_of : Bytes → D → List (Visit D Y)
  calls_of dir d = (step (join_path dir (dir_name d)) d).calls

  and_then-go_on :
      (r rest : Walk D Y A)
      → r.verdict ≡ go_on
      → and_then dir_name r rest ≡ record { calls = r.calls ++ rest.calls; verdict = rest.verdict }
  unfolding and_then
  and_then-go_on r rest h = rw h refl

  -- A loop whose steps all go on makes all their calls.
  walk_all-calls :
      (dir : Bytes) (ds : List D)
      → walk_all dir_name step dir ds ≡ record { calls = flat (calls_of dir) ds; verdict = go_on }
  unfolding walk_all flat
  walk_all-calls dir [] = refl
  walk_all-calls dir (d ∷ ds) =
      and_then-go_on (step (join_path dir (dir_name d)) d) (walk_all dir_name step dir ds)
        (goes_on (join_path dir (dir_name d)) d)
      ∙ ap (λ (w : Walk D Y A). record { calls = calls_of dir d ++ w.calls; verdict = w.verdict })
          (walk_all-calls dir ds)

module _ {F D E X A : Type 0} (dir_name : D → Bytes) (is_dir : D → Bool) (sorter : Sorter D)
    (read_file : F → Option (Result E (List D))) {fn : Visit D (ReadDirError E X) → Verdict A}
    (skips : SkipsErrors fn) (fsys : FileSystem F D E X) where
  after_entries-go_on :
      (step : Bytes → D → Walk D (ReadDirError E X) A) (path : Bytes) (d : D)
      (r : Result (ReadDirError E X) (List D))
      → ((p : Bytes) (e : D) → (step p e).verdict ≡ go_on)
      → (after_entries dir_name is_dir sorter read_file fn fsys step path d r).verdict ≡ go_on
  unfolding after_entries at_dir
  after_entries-go_on step path d (ok ds) h =
      ap (λ w. w.verdict) (walk_all-calls dir_name step h path ds)
  after_entries-go_on step path d (err y) h = rw (skips.skips path (some d) y) refl

  after_visit-go_on :
      (step : Bytes → D → Walk D (ReadDirError E X) A) (path : Bytes) (d : D) (b : Bool)
      → ((p : Bytes) (e : D) → (step p e).verdict ≡ go_on)
      → (after_visit dir_name is_dir sorter read_file fn fsys step path d b
          (fn (seen path d))).verdict
        ≡ go_on
  unfolding after_visit
  after_visit-go_on step path d true h =
      rw (skips.goes_on path d) (after_entries-go_on step path d _ h)
  after_visit-go_on step path d false h = rw (skips.goes_on path d) refl

  walk_dir-go_on :
      (n : ℕ) (path : Bytes) (d : D)
      → (walk_dir dir_name is_dir sorter read_file fn fsys n path d).verdict ≡ go_on
  unfolding walk_dir
  walk_dir-go_on zero path d = refl
  walk_dir-go_on (suc n) path d =
      after_visit-go_on (walk_dir dir_name is_dir sorter read_file fn fsys n) path d (is_dir d)
        (walk_dir-go_on n)

  after_visit-leaf :
      (step : Bytes → D → Walk D (ReadDirError E X) A) (path : Bytes) (d : D) (b : Bool)
      (v : Verdict A)
      → b ≡ false
      → (after_visit dir_name is_dir sorter read_file fn fsys step path d b v).calls
        ≡ seen path d ∷ []
  unfolding after_visit
  after_visit-leaf step path d true v file = absurd (cc)
  after_visit-leaf step path d false v file = refl

  after_visit-dir :
      (step : Bytes → D → Walk D (ReadDirError E X) A) (path : Bytes) (d : D) (b : Bool)
      (v : Verdict A) {r : Result (ReadDirError E X) (List D)}
      → b ≡ true
      → v ≡ go_on
      → fs_read_dir dir_name sorter read_file fsys path ≡ r
      → after_visit dir_name is_dir sorter read_file fn fsys step path d b v
        ≡ after_entries dir_name is_dir sorter read_file fn fsys step path d r
  unfolding after_visit
  after_visit-dir step path d b v dir goes reads = rw (dir, goes, reads) refl

  abbrev pub walked : ℕ → Bytes → D → List (Visit D (ReadDirError E X))
  walked n path d = (walk_dir dir_name is_dir sorter read_file fn fsys n path d).calls

  walked-leaf :
      (n : ℕ) (path : Bytes) (d : D) → is_dir d ≡ false → walked (suc n) path d ≡ seen path d ∷ []
  unfolding walk_dir
  walked-leaf n path d file =
      after_visit-leaf (walk_dir dir_name is_dir sorter read_file fn fsys n) path d (is_dir d)
        (fn (seen path d)) file

  walked-dir :
      (n : ℕ) (path : Bytes) (d : D) {r : Result (ReadDirError E X) (List D)}
      → is_dir d ≡ true
      → fs_read_dir dir_name sorter read_file fsys path ≡ r
      → walk_dir dir_name is_dir sorter read_file fn fsys (suc n) path d
        ≡ after_entries dir_name is_dir sorter read_file fn fsys
            (walk_dir dir_name is_dir sorter read_file fn fsys n)
            path
            d
            r
  unfolding walk_dir
  walked-dir n path d dir reads =
      after_visit-dir (walk_dir dir_name is_dir sorter read_file fn fsys n) path d (is_dir d)
        (fn (seen path d)) dir (skips.goes_on path d) reads

  walked-closed :
      (n : ℕ) (path : Bytes) (d : D) {y : ReadDirError E X}
      → is_dir d ≡ true
      → fs_read_dir dir_name sorter read_file fsys path ≡ err y
      → walked (suc n) path d ≡ seen path d ∷ refused path d y ∷ []
  unfolding after_entries
  walked-closed n path d dir fails = ap (λ w. w.calls) (walked-dir n path d dir fails)

  walked-branch :
      (n : ℕ) (path : Bytes) (d : D) {ds : List D}
      → is_dir d ≡ true
      → fs_read_dir dir_name sorter read_file fsys path ≡ ok ds
      → walked (suc n) path d
        ≡ seen path d ∷ flat (λ e. walked n (join_path path (dir_name e)) e) ds
  unfolding after_entries
  walked-branch n path d {ds} dir lists =
      ap (λ w. w.calls) (walked-dir n path d dir lists)
      ∙ ap (λ w. seen path d ∷ w.calls)
          (walk_all-calls dir_name (walk_dir dir_name is_dir sorter read_file fn fsys n)
            (walk_dir-go_on n) path ds)

  mutual
    unfolding depth preorder Serves roots_of flat

    walked-preorder :
        (n : ℕ) (path : Bytes) (t : Tree D (ReadDirError E X))
        → depth t ≤ n
        → Serves dir_name is_dir sorter read_file fsys path t
        → Perm (walked n path (entry_of t)) (preorder dir_name path t)
    walked-preorder zero path (leaf d) deep s = absurd (omega arith)
    walked-preorder zero path (closed d y) deep s = absurd (omega arith)
    walked-preorder zero path (branch d f) deep s = absurd (omega arith)
    walked-preorder (suc n) path (leaf d) deep s = rw (walked-leaf n path d s) Perm.rfl
    walked-preorder (suc n) path (closed d y) deep (dir, fails) =
        rw (walked-closed n path d dir fails) Perm.rfl
    walked-preorder (suc n) path (branch d f) deep (dir, (ds, lists, same), all) =
        rw (walked-branch n path d dir lists) (
          Perm.cons (seen path d) (
            Perm.trans (flat-Perm (λ e. walked n (join_path path (dir_name e)) e) same)
              (walked-preorder_all n path f (omega arith) all)))

    walked-preorder_all :
        (n : ℕ) (path : Bytes) (f : Forest D (ReadDirError E X))
        → depth_all f ≤ n
        → ServesAll dir_name is_dir sorter read_file fsys path f
        → Perm
            (flat (λ e. walked n (join_path path (dir_name e)) e) (roots_of f))
            (preorder_all dir_name path f)
    walked-preorder_all n path bare deep s = Perm.rfl
    walked-preorder_all n path (grown t f) deep (s, all) =
        Perm.append (walked-preorder n _ t (omega arith) s)
          (walked-preorder_all n path f (omega arith) all)

  module _ (stat_file : F → Result E D) where
    fs_stat-opens :
        (r : Result E F) (f : F) (d : D)
        → r ≡ ok f
        → stat_file f ≡ ok d
        → fs_stat dir_name is_dir sorter read_file fn fsys stat_file r ≡ ok d
    unfolding fs_stat
    fs_stat-opens r f d opens stats = rw (opens, fs_stat, stats) refl

    ended-go_on :
        (w : Walk D (ReadDirError E X) A)
        → w.verdict ≡ go_on
        → ended dir_name is_dir sorter read_file fn fsys stat_file w ≡ w
    unfolding ended
    ended-go_on w h = rw h refl

    fs_stat-refused :
        (r : Result E F) (e : E)
        → r ≡ err e
        → fs_stat dir_name is_dir sorter read_file fn fsys stat_file r ≡ err (open_error e)
    unfolding fs_stat
    fs_stat-refused r e fails = rw fails refl

    ended-skip_dir :
        (visits : List (Visit D (ReadDirError E X))) (v : Verdict A)
        → v ≡ skip_dir
        → ended dir_name is_dir sorter read_file fn fsys stat_file
            (record { calls = visits; verdict = v })
          ≡ record { calls = visits; verdict = go_on }
    unfolding ended
    ended-skip_dir visits v skip = rw skip refl

    walk-opens :
        (fuel : ℕ) (root : Bytes) (f : F) (d : D)
        → fsys.open_name root ≡ ok f
        → stat_file f ≡ ok d
        → walk dir_name is_dir sorter read_file fn fsys stat_file fuel root
          ≡ walk_dir dir_name is_dir sorter read_file fn fsys fuel root d
    unfolding walk walk_from
    walk-opens fuel root f d opens stats =
        ap
          (λ r.
            ended dir_name is_dir sorter read_file fn fsys stat_file
              (walk_from dir_name is_dir sorter read_file fn fsys stat_file fuel root r))
          (fs_stat-opens (fsys.open_name root) f d opens stats)
        ∙ ended-go_on (walk_dir dir_name is_dir sorter read_file fn fsys fuel root d)
            (walk_dir-go_on fuel root d)

    pub walk-refused :
        (fuel : ℕ) (root : Bytes) (e : E)
        → fsys.open_name root ≡ err e
        → walk dir_name is_dir sorter read_file fn fsys stat_file fuel root
          ≡ record { calls = unreadable root (open_error e) ∷ []; verdict = go_on }
    unfolding walk walk_from
    walk-refused fuel root e fails =
        ap
          (λ r.
            ended dir_name is_dir sorter read_file fn fsys stat_file
              (walk_from dir_name is_dir sorter read_file fn fsys stat_file fuel root r))
          (fs_stat-refused (fsys.open_name root) e fails)
        ∙ ended-skip_dir (unreadable root (open_error e) ∷ []) (fn (unreadable root (open_error e)))
            (skips.skips root none (open_error e))

    pub walk-preorder :
        (fuel : ℕ) (root : Bytes) (t : Tree D (ReadDirError E X)) (f : F)
        → fsys.open_name root ≡ ok f
        → stat_file f ≡ ok (entry_of t)
        → depth t ≤ fuel
        → Serves dir_name is_dir sorter read_file fsys root t
        → Perm
            (walk dir_name is_dir sorter read_file fn fsys stat_file fuel root).calls
            (preorder dir_name root t)
          × ((walk dir_name is_dir sorter read_file fn fsys stat_file fuel root).verdict ≡ go_on)
    walk-preorder fuel root t f opens stats deep s =
        let same = walk-opens fuel root f (entry_of t) opens stats in
        (
          subst (λ w. Perm w.calls (preorder dir_name root t)) (sym same)
              (walked-preorder fuel root t deep s),
          ap (λ w. w.verdict) same ∙ walk_dir-go_on fuel root (entry_of t),
        )
