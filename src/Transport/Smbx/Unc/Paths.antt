-- ===== src/Transport/Smbx/Unc/Paths.antt =====
-- The path that `ParseUNC` returns: its elements, when it is valid for `io/fs`, and that a
-- canonical UNC written out is read back.
use mathlib.Core.Path.{subst}
use mathlib.Core.List.{cons-ne-nil}
use opengpm.Base.{
  List, [], ◌∷◌, ◌++◌, Bool, false, not, ◌&&◌, ◌||◌, ◌≡◌, ◌≢◌, inl, inr, refl, sym, ap, ◌∙◌,
  Bool-cases, ok, arith, All, All-append, all, append-nil,
}
use opengpm.Text.{Bytes, Lacks, codes, equal}
use opengpm.Text.Case.{to_upper}
use opengpm.Text.Fields.{
  fields_func, fields_from, flush, fields_from-append, join, split, split-join, split-ne-nil,
  join-split, Free,
}
use opengpm.Transport.Smbx.Unc.{Unc, is_sep, is_empty, path_of, parse_unc}
use opengpm.Transport.Smbx.Unc.Spec.{IsName, goes_on, parse_unc_iff}

Free-Lacks : (s : Bytes) → Free is_sep s → Lacks b'/' s
Free-Lacks [] h = tt
Free-Lacks (c ∷ s) (e, h) = (ground arith, Free-Lacks s h)

names-Lacks : (fs : List Bytes) → All IsName fs → All (Lacks b'/') fs
names-Lacks [] h = tt
names-Lacks (f ∷ fs) (n, h) = (Free-Lacks f n.free, names-Lacks fs h)

flush-IsName : (cur : Bytes) → Free is_sep cur → All IsName (flush cur)
unfolding flush
flush-IsName [] h = tt
flush-IsName (c ∷ cur) h = (record { nonempty = cons-ne-nil c cur; free = h }, tt)

fields_from-IsName : (cur s : Bytes) → Free is_sep cur → All IsName (fields_from is_sep cur s)
unfolding fields_from
fields_from-IsName cur [] h = flush-IsName cur h
fields_from-IsName cur (c ∷ s) h = elim (Bool-cases (is_sep c)) [
  | inl e ↦
      rw (e, fields_from)
        (All-append IsName (flush cur) (fields_from is_sep [] s) (flush-IsName cur h)
          (fields_from-IsName [] s tt))
  | inr e ↦
      rw (e, fields_from)
        (fields_from-IsName (cur ++ c ∷ []) s
          (All-append (λ x. is_sep x ≡ false) cur (c ∷ []) h (e, tt)))
]

flush-name : (f : Bytes) → f ≢ [] → flush f ≡ f ∷ []
unfolding flush
flush-name [] h = absurd (h refl)
flush-name (c ∷ f) h = refl

-- Names joined by `/` are read back as the fields.
fields_func-join : (fs : List Bytes) → All IsName fs → fields_func is_sep (join (codes "/") fs) ≡ fs
unfolding fields_func join
fields_func-join [] h = unfold fields_from flush in refl
fields_func-join (f ∷ []) (n, h) =
    ap (fields_from is_sep []) (sym (append-nil f))
    ∙ fields_from-append is_sep f [] [] n.free
    ∙ unfold fields_from in flush-name f n.nonempty
fields_func-join (f ∷ g ∷ fs) (n, h) =
    fields_from-append is_sep f [] (b'/' ∷ join (codes "/") (g ∷ fs)) n.free
    ∙ (unfold fields_from in
        ap (λ t. t ++ fields_from is_sep [] (join (codes "/") (g ∷ fs))) (flush-name f n.nonempty))
    ∙ ap (◌∷◌ f) (fields_func-join (g ∷ fs) h)

-- Every element is a name: not empty, and without a separator of either spelling.
pub IsNormal : Bytes → Type 0
IsNormal path = All IsName (split b'/' path)

join-name-IsName :
    (f : Bytes) (fs : List Bytes) → IsName f → is_empty (join (codes "/") (f ∷ fs)) ≡ false
unfolding join is_empty
join-name-IsName [] fs n = absurd (n.nonempty refl)
join-name-IsName (c ∷ f) [] n = refl
join-name-IsName (c ∷ f) (g ∷ fs) n = refl

-- The path of a tail whose fields are `fs`.
path_of-fields :
    (tail : Bytes) (f : Bytes) (fs : List Bytes)
    → All IsName (f ∷ fs)
    → fields_func is_sep tail ≡ f ∷ fs
    → path_of tail ≡ join (codes "/") (f ∷ fs)
unfolding path_of
path_of-fields tail f fs (n, ns) e = rw (e, join-name-IsName f fs n)

path_of-IsNormal : (tail : Bytes) → IsNormal (path_of tail)
unfolding IsNormal path_of
path_of-IsNormal tail =
    by_fields (fields_func is_sep tail) refl (unfold fields_func in fields_from-IsName [] tail tt)
  where
    by_fields :
        (fs : List Bytes)
        → fields_func is_sep tail ≡ fs
        → All IsName (fields_func is_sep tail)
        → All IsName (split b'/' (path_of tail))
    by_fields [] e ns =
        rw (e, path_of)
          (unfold split join is_empty in
            (record { nonempty = cons-ne-nil b'.' []; free = (refl, tt) }, tt))
    by_fields (f ∷ fs) e ns =
        let names : All IsName (f ∷ fs) = rw e at ns in
        rw (path_of-fields tail f fs names e, split-join b'/' f fs (names-Lacks (f ∷ fs) names))
          names

-- A normal path is its own path.
path_of_normal : (path : Bytes) → IsNormal path → path_of path ≡ path
unfolding IsNormal
path_of_normal path n = by_parts (split b'/' path) refl n
  where
    by_parts :
        (ps : List Bytes)
        → split b'/' path ≡ ps
        → All IsName (split b'/' path)
        → path_of path ≡ path
    by_parts [] e ns = absurd (split-ne-nil b'/' path e)
    by_parts (p ∷ ps) e ns =
        let names : All IsName (p ∷ ps) = rw e at ns in
        let whole : join (codes "/") (p ∷ ps) ≡ path =
          ap (join (codes "/")) (sym e) ∙ join-split b'/' path in
        path_of-fields path p ps names
          (ap (fields_func is_sep) (sym whole) ∙ fields_func-join (p ∷ ps) names)
        ∙ whole

-- `fs.ValidPath`: the root, or elements none of which is empty, `.` or `..`.
abbrev pub is_dots : Bytes → Bool
is_dots s = equal s (codes ".") || equal s (codes "..")

pub valid_path : Bytes → Bool
unfolding is_empty
valid_path p = equal p (codes ".") || all (λ x. not (is_empty x) && not (is_dots x)) (split b'/' p)

-- A UNC in the form that `ParseUNC` returns.
pub record IsCanonical (wide : Bytes → Bytes) (u : Unc) : Type 0 where
  pub domain_name : IsName u.domain
  pub share_name : IsName u.share
  pub upper : to_upper wide u.share ≡ u.share
  pub normal : IsNormal u.path

-- `\\<domain>\<share>\<path>`
pub unc_text : Unc → Bytes
unc_text u = b'\\' ∷ b'\\' ∷ (u.domain ++ b'\\' ∷ (u.share ++ b'\\' ∷ u.path))

module _ (wide : Bytes → Bytes) where
  -- The path that `ParseUNC` returns has one or more elements, and each is a non-empty text without
  -- a separator of either spelling: nothing doubled, leading or trailing is left.
  pub parse_unc-IsNormal : (r : Bytes) {u : Unc} → parse_unc wide r ≡ ok u → IsNormal u.path
  parse_unc-IsNormal r {u} h =
      let x = (parse_unc_iff wide r u).0 h in
      subst IsNormal (sym x.path_is) (path_of-IsNormal x.tail)

  -- A canonical UNC, written with backslashes between its parts, is read back as it is.
  pub parse_unc-unc_text : (u : Unc) → IsCanonical wide u → parse_unc wide (unc_text u) ≡ ok u
  unfolding unc_text
  parse_unc-unc_text u c = (parse_unc_iff wide _ u).1 (record {
    first = b'\\';
    second = b'\\';
    third = b'\\';
    share = u.share;
    behind = b'\\' ∷ u.path;
    tail = u.path;
    splits = refl;
    seps = (refl, refl, refl);
    domain_name = c.domain_name;
    share_name = c.share_name;
    inside = goes_on b'\\' u.path refl;
    upper = sym c.upper;
    path_is = sym (path_of_normal u.path c.normal);
  })

  -- Parent elements are kept: `\\<domain>\<share>\..\<name>` is accepted for any names, with the
  -- path `../<name>`, which `fs.ValidPath` refuses.
  pub parse_unc_dotdot :
      (domain share name : Bytes)
      → IsName domain
      → IsName share
      → IsName name
      → (u : Unc) × (parse_unc wide
            (b'\\' ∷ b'\\' ∷ (domain ++ b'\\' ∷ (share ++ b'\\' ∷ (codes "..\\" ++ name))))
          ≡ ok u)
        × (u.path ≡ codes "../" ++ name)
        × (valid_path u.path ≡ false)
  unfolding valid_path
  parse_unc_dotdot domain share name d s n =
      let tail = codes "..\\" ++ name in
      let parent : IsName (codes "..") = record {
        nonempty = cons-ne-nil _ _;
        free = (refl, (refl, tt));
      } in
      let names : All IsName (codes ".." ∷ name ∷ []) = (parent, (n, tt)) in
      let fields : fields_func is_sep tail ≡ codes ".." ∷ name ∷ [] =
        unfold fields_func join in ap (◌∷◌ (codes "..")) (fields_func-join (name ∷ []) (n, tt)) in
      let path : path_of tail ≡ codes "../" ++ name =
        unfold join in path_of-fields tail (codes "..") (name ∷ []) names fields in
      let parts : split b'/' (codes "../" ++ name) ≡ codes ".." ∷ name ∷ [] =
        unfold join in
        split-join b'/' (codes "..") (name ∷ []) (names-Lacks (codes ".." ∷ name ∷ []) names) in
      let u : Unc = record { domain = domain; share = to_upper wide share; path = path_of tail } in
      (
        u,
        (parse_unc_iff wide _ u).1 (record {
          first = b'\\';
          second = b'\\';
          third = b'\\';
          share = share;
          behind = b'\\' ∷ tail;
          tail = tail;
          splits = refl;
          seps = (refl, refl, refl);
          domain_name = d;
          share_name = s;
          inside = goes_on b'\\' tail refl;
          upper = refl;
          path_is = refl;
        }),
        path,
        rw (path, parts) (unfold equal is_empty in refl),
      )
