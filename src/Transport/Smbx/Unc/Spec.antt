-- ===== src/Transport/Smbx/Unc/Spec.antt =====
-- The UNC paths that `ParseUNC` accepts, part by part, and the error of every other text.
use mathlib.Core.List.{cons-ne-nil}
use opengpm.Base.{
  ℕ, suc, [], ◌∷◌, ◌++◌, true, false, ◌≡◌, ◌≢◌, ◌⊎◌, inl, inr, ◌↔◌, refl, ap, Option-cases,
  if◌then◌else◌, ok, err, arith, take, drop, append-nil,
}
use opengpm.Text.{Bytes}
use opengpm.Text.Case.{to_upper}
use opengpm.Text.Search.{take_before, drop_past}
use opengpm.Text.Fields.{
  index_func, index_func-some, index_func-none, index_func-append, index_func-Free, Free,
}
use opengpm.Transport.Smbx.Unc.{
  Unc, no_domain, no_share, is_sep, cut_func, is_empty, path_of, parse_rest, parse_unc,
}

-- A component holds no separator, and something.
pub record IsName (s : Bytes) : Type 0 where
  pub nonempty : s ≢ []
  pub free : Free is_sep s

-- What is behind a component: nothing, or a separator and `rest`.
pub data Behind : Bytes → Bytes → Type 0 where
  ends : Behind [] []
  goes_on : (c : ℕ) (rest : Bytes) → is_sep c ≡ true → Behind (c ∷ rest) rest

-- Two separators, the domain, a separator, the share, and what is inside the share.
pub record IsUnc (wide : Bytes → Bytes) (r : Bytes) (u : Unc) : Type 0 where
  pub first : ℕ
  pub second : ℕ
  pub third : ℕ
  pub share : Bytes
  pub behind : Bytes
  pub tail : Bytes
  pub splits : r ≡ first ∷ second ∷ (u.domain ++ third ∷ (share ++ behind))
  pub seps : (is_sep first ≡ true) × (is_sep second ≡ true) × (is_sep third ≡ true)
  pub domain_name : IsName u.domain
  pub share_name : IsName share
  pub inside : Behind behind tail
  pub upper : u.share ≡ to_upper wide share
  pub path_is : u.path ≡ path_of tail

cut_func-append :
    (s : Bytes) (c : ℕ) (rest : Bytes)
    → Free is_sep s
    → is_sep c ≡ true
    → cut_func (s ++ c ∷ rest) is_sep ≡ (s, rest, true)
unfolding cut_func
cut_func-append s c rest h e =
    rw (index_func-append is_sep s c rest h e, cut_func, take_before s c rest, drop_past s c rest)

cut_func-Free : (s : Bytes) → Free is_sep s → cut_func s is_sep ≡ (s, [], false)
unfolding cut_func
cut_func-Free s h = rw (index_func-Free is_sep s h, cut_func)

is_empty-name : (s : Bytes) → s ≢ [] → is_empty s ≡ false
unfolding is_empty
is_empty-name [] h = absurd (h refl)
is_empty-name (c ∷ s) h = refl

-- How a text is cut, whichever way it goes.
pub cut_func-cases :
    (s : Bytes)
    → ((cut_func s is_sep ≡ (s, [], false)) × Free is_sep s)
      ⊎ ((before : Bytes) × (c : ℕ) × (after : Bytes) × (cut_func s is_sep ≡ (before, after, true))
          × (s ≡ before ++ c ∷ after)
          × (is_sep c ≡ true)
          × Free is_sep before)
unfolding cut_func
cut_func-cases s = elim (Option-cases (index_func is_sep s)) [
  | inl e ↦ inl (rw (e, cut_func), index_func-none is_sep s e)
  | inr (i, e) ↦
      let cut = index_func-some is_sep s e in
      inr
        (take i s, cut.found, drop (suc i) s, rw (e, cut_func), cut.splits, cut.passes, cut.before)
]

module _ (wide : Bytes → Bytes) where
  parse_rest-names :
      (whole dom : Bytes) (c : ℕ) (share : Bytes) {behind tail : Bytes}
      → IsName dom
      → is_sep c ≡ true
      → IsName share
      → Behind behind tail
      → parse_rest wide whole (dom ++ c ∷ (share ++ behind))
        ≡ ok (record { domain = dom; share = to_upper wide share; path = path_of tail })
  unfolding parse_rest
  parse_rest-names whole dom c share d e n ends = rw (
    append-nil share,
    cut_func-append dom c share d.free e,
    cut_func-Free share n.free,
    is_empty-name dom d.nonempty,
    is_empty-name share n.nonempty,
  )
  parse_rest-names whole dom c share d e n (goes_on x rest ex) = rw (
    cut_func-append dom c (share ++ x ∷ rest) d.free e,
    cut_func-append share x rest n.free ex,
    is_empty-name dom d.nonempty,
    is_empty-name share n.nonempty,
  )

  pub parse_unc_complete : (r : Bytes) {u : Unc} → IsUnc wide r u → parse_unc wide r ≡ ok u
  unfolding parse_unc
  parse_unc_complete r {u} h =
      rw (h.splits, h.seps.0, h.seps.1)
        (rw
          (parse_rest-names _ u.domain h.third h.share h.domain_name h.seps.2 h.share_name h.inside)
          (ground arith))

  -- What `parse_rest` reads of the text behind the two separators.
  pub record RestIs (rest : Bytes) (u : Unc) : Type 0 where
    pub third : ℕ
    pub share : Bytes
    pub behind : Bytes
    pub tail : Bytes
    pub splits : rest ≡ u.domain ++ third ∷ (share ++ behind)
    pub sep : is_sep third ≡ true
    pub domain_name : IsName u.domain
    pub share_name : IsName share
    pub inside : Behind behind tail
    pub upper : u.share ≡ to_upper wide share
    pub path_is : u.path ≡ path_of tail

  is_empty-IsName : (s : Bytes) → is_empty s ≡ false → Free is_sep s → IsName s
  unfolding is_empty
  is_empty-IsName [] e f = absurd (cc)
  is_empty-IsName (c ∷ s) e f = record { nonempty = cons-ne-nil c s; free = f }

  -- The tests behind the two cuts, over their results.
  tests_pass :
      (whole domain share path : Bytes) {u : Unc}
      → (if is_empty domain
          then err (no_domain whole)
          else if is_empty share
          then err (no_share whole)
          else ok (record { domain = domain; share = to_upper wide share; path = path }))
        ≡ ok u
      → (is_empty domain ≡ false)
        × (is_empty share ≡ false)
        × (u.domain ≡ domain)
        × (u.share ≡ to_upper wide share)
        × (u.path ≡ path)
  tests_pass whole domain share path h = ground arith

  share-RestIs :
      (whole rest domain after : Bytes) (c : ℕ) {u : Unc}
      → cut_func rest is_sep ≡ (domain, after, true)
      → rest ≡ domain ++ c ∷ after
      → is_sep c ≡ true
      → Free is_sep domain
      → parse_rest wide whole rest ≡ ok u
      → RestIs rest u
  unfolding parse_rest
  share-RestIs whole rest domain after c {u} cut splits sep free h = elim (cut_func-cases after) [
    | inl (cut', free') ↦
        let (d, n, same, up, p) =
          tests_pass whole domain after (path_of []) (rw (cut, cut') at h) in
        record {
          third = c;
          share = after;
          behind = [];
          tail = [];
          splits = rw (same, append-nil after) splits;
          sep = sep;
          domain_name = rw same (is_empty-IsName domain d free);
          share_name = is_empty-IsName after n free';
          inside = ends;
          upper = up;
          path_is = p;
        }
    | inr (share, x, tail, cut', splits', sep', free') ↦
        let (d, n, same, up, p) =
          tests_pass whole domain share (path_of tail) (rw (cut, cut') at h) in
        record {
          third = c;
          share = share;
          behind = x ∷ tail;
          tail = tail;
          splits = rw (same, ← splits') splits;
          sep = sep;
          domain_name = rw same (is_empty-IsName domain d free);
          share_name = is_empty-IsName share n free';
          inside = goes_on x tail sep';
          upper = up;
          path_is = p;
        }
  ]

  parse_rest-RestIs :
      (whole rest : Bytes) {u : Unc} → parse_rest wide whole rest ≡ ok u → RestIs rest u
  parse_rest-RestIs whole rest h = elim (cut_func-cases rest) [
    | inl (cut, free) ↦ absurd (unfold parse_rest in ground (arith, cut))
    | inr (domain, c, after, cut, splits, sep, free) ↦
        share-RestIs whole rest domain after c cut splits sep free h
  ]

  parse_unc_sound : (r : Bytes) {u : Unc} → parse_unc wide r ≡ ok u → IsUnc wide r u
  unfolding parse_unc
  parse_unc_sound [] h = absurd (cc)
  parse_unc_sound (a ∷ []) h = absurd (cc)
  parse_unc_sound (a ∷ b ∷ rest) {u} h =
      let accepted : (is_sep a ≡ true)
          × (is_sep b ≡ true)
          × (parse_rest wide (a ∷ b ∷ rest) rest ≡ ok u) =
        (ground arith, ground arith, ground arith) in
      let x = parse_rest-RestIs (a ∷ b ∷ rest) rest accepted.2 in
      record {
        first = a;
        second = b;
        third = x.third;
        share = x.share;
        behind = x.behind;
        tail = x.tail;
        splits = ap (λ t. a ∷ b ∷ t) x.splits;
        seps = (accepted.0, accepted.1, x.sep);
        domain_name = x.domain_name;
        share_name = x.share_name;
        inside = x.inside;
        upper = x.upper;
        path_is = x.path_is;
      }

  -- `ParseUNC` accepts exactly two separators, a domain, a separator and a share, each name
  -- without separators and not empty, and then nothing or a separator and the path inside.
  pub parse_unc_iff : (r : Bytes) (u : Unc) → (parse_unc wide r ≡ ok u) ↔ IsUnc wide r u
  parse_unc_iff r u = (parse_unc_sound r, parse_unc_complete r)
