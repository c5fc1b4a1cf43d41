-- ===== src/Text/Fields.antt =====
-- `strings.IndexFunc`, `strings.FieldsFunc`, `strings.Split`, `strings.Join` and
-- `net.JoinHostPort`.
use opengpm.Base.{
  ℕ, zero, suc, List, [], ◌∷◌, ◌++◌, Bool, true, false, ◌≡◌, ◌≢◌, refl, sym, ap, ◌∙◌, ◌==◌, Option,
  none, some, Option-cases, Bool-cases, if◌then◌else◌, inl, inr, arith, length, take, drop, All,
  any, ==_iff, ==_refl, ==_ne, append_assoc, append-nil,
}
use opengpm.Text.{Bytes, Lacks}
use mathlib.Core.List.{cons-ne-nil}

-- What is flushed at the end of a field: nothing, if the field is empty.
unfoldable pub flush : Bytes → List Bytes
flush [] = []
flush (c ∷ s) = (c ∷ s) ∷ []

module _ (p : ℕ → Bool) where
  unfoldable pub index_func : Bytes → Option ℕ
  index_func [] = none
  index_func (c ∷ s) = elim (p c) [
    | true ↦ some 0
    | false ↦ elim (index_func s) [ none ↦ none | some i ↦ some (suc i) ]
  ]

  -- `cur` is the field that is being read.
  unfoldable pub fields_from : Bytes → Bytes → List Bytes
  unfolding flush
  fields_from cur [] = flush cur
  fields_from cur (c ∷ s) = elim (p c) [
    | true ↦ flush cur ++ fields_from [] s
    | false ↦ fields_from (cur ++ c ∷ []) s
  ]

  unfoldable pub fields_func : Bytes → List Bytes
  unfolding fields_from
  fields_func = fields_from []

-- `strings.Join(parts, sep)`
unfoldable pub join : Bytes → List Bytes → Bytes
join sep [] = []
join sep (x ∷ []) = x
join sep (x ∷ y ∷ parts) = x ++ (sep ++ join sep (y ∷ parts))

-- `strings.Split(s, sep)` at a single byte; `cur` is the part that is being read.
unfoldable pub split_from : ℕ → Bytes → Bytes → List Bytes
split_from b cur [] = cur ∷ []
split_from b cur (c ∷ s) = elim (c == b) [
  | true ↦ cur ∷ split_from b [] s
  | false ↦ split_from b (cur ++ c ∷ []) s
]

unfoldable pub split : ℕ → Bytes → List Bytes
unfolding split_from
split b = split_from b []

-- `net.JoinHostPort`: a host with a colon is an IPv6 literal and is put in brackets.
unfoldable pub join_host_port : Bytes → Bytes → Bytes
join_host_port host port =
    if any (λ c. c == b':') host then b'[' ∷ (host ++ b']' ∷ b':' ∷ port) else host ++ b':' ∷ port

-- The text holds nothing that passes the test.
abbrev pub Free : (ℕ → Bool) → Bytes → Type 0
Free p = All (λ c. p c ≡ false)

module _ (p : ℕ → Bool) where
  pub index_func-none : (s : Bytes) → index_func p s ≡ none → Free p s
  unfolding index_func
  index_func-none [] h = tt
  index_func-none (c ∷ s) h = (
    ground (arith, Bool-cases (p c)),
    index_func-none s (ground (arith, Option-cases (index_func p s))),
  )

  pub index_func-Free : (s : Bytes) → Free p s → index_func p s ≡ none
  unfolding index_func
  index_func-Free [] h = refl
  index_func-Free (c ∷ s) h = ground (arith, index_func-Free s h.1)

  -- `s` is cut at the first `c` that passes.
  pub record FirstAt (s : Bytes) (i : ℕ) : Type 0 where
    pub found : ℕ
    pub passes : p found ≡ true
    pub splits : s ≡ take i s ++ found ∷ drop (suc i) s
    pub before : Free p (take i s)

  pub index_func-some : (s : Bytes) {i : ℕ} → index_func p s ≡ some i → FirstAt s i
  unfolding index_func
  index_func-some [] h = absurd (cc)
  index_func-some (c ∷ s) {i = zero} h = elim (Bool-cases (p c)) [
    | inl e ↦ record { found = c; passes = e; splits = refl; before = tt }
    | inr e ↦ absurd (ground (arith, Option-cases (index_func p s)))
  ]
  index_func-some (c ∷ s) {i = suc i} h =
      let later : index_func p s ≡ some i = ground (arith, Option-cases (index_func p s)) in
      let rest = index_func-some s later in
      record {
        found = rest.found;
        passes = rest.passes;
        splits = ap (◌∷◌ c) rest.splits;
        before = (ground arith, rest.before);
      }

  pub index_func-append :
      (s : Bytes) (c : ℕ) (rest : Bytes)
      → Free p s
      → p c ≡ true
      → index_func p (s ++ c ∷ rest) ≡ some (length s)
  unfolding index_func
  index_func-append [] c rest h e = rw e
  index_func-append (x ∷ s) c rest h e = ground (arith, index_func-append s c rest h.1 e)

  -- Reading a field through to a separator, or to the end.
  pub fields_from-append :
      (f cur rest : Bytes)
      → Free p f
      → fields_from p cur (f ++ rest) ≡ fields_from p (cur ++ f) rest
  unfolding fields_from
  fields_from-append [] cur rest h = ap (λ t. fields_from p t rest) (sym (append-nil cur))
  fields_from-append (c ∷ f) cur rest (e, h) = rw e (
      fields_from-append f (cur ++ c ∷ []) rest h
      ∙ ap (λ t. fields_from p t rest) (append_assoc cur (c ∷ []) f))

split_from-append :
    (b : ℕ) (f cur rest : Bytes)
    → Lacks b f
    → split_from b cur (f ++ rest) ≡ split_from b (cur ++ f) rest
unfolding split_from
split_from-append b [] cur rest h = ap (λ t. split_from b t rest) (sym (append-nil cur))
split_from-append b (c ∷ f) cur rest (ne, h) =
    rw (==_ne c b ne, split_from)
      (split_from-append b f (cur ++ c ∷ []) rest h
        ∙ ap (λ t. split_from b t rest) (append_assoc cur (c ∷ []) f))

-- Splitting a join at the same byte gives the parts back, if there is one and none holds it.
pub split-join :
    (b : ℕ) (x : Bytes) (parts : List Bytes)
    → All (Lacks b) (x ∷ parts)
    → split b (join (b ∷ []) (x ∷ parts)) ≡ x ∷ parts
unfolding split join
split-join b x [] (h, hs) =
    ap (λ t. split_from b [] t) (sym (append-nil x)) ∙ split_from-append b x [] [] h
split-join b x (y ∷ parts) (h, hs) =
    split_from-append b x [] (b ∷ join (b ∷ []) (y ∷ parts)) h
    ∙ rw (==_refl b, split_from) (ap (◌∷◌ x) (split-join b y parts hs))

join_cons :
    (b : ℕ) (x : Bytes) (parts : List Bytes)
    → parts ≢ []
    → join (b ∷ []) (x ∷ parts) ≡ x ++ b ∷ join (b ∷ []) parts
unfolding join
join_cons b x [] h = absurd (h refl)
join_cons b x (y ∷ parts) h = refl

split_from-ne-nil : (b : ℕ) (cur s : Bytes) → split_from b cur s ≢ []
unfolding split_from
split_from-ne-nil b cur [] = cons-ne-nil cur []
split_from-ne-nil b cur (c ∷ s) = ground (arith, split_from-ne-nil b (cur ++ c ∷ []) s)

join-split_from : (b : ℕ) (cur s : Bytes) → join (b ∷ []) (split_from b cur s) ≡ cur ++ s
unfolding split_from
join-split_from b cur [] = unfold join in sym (append-nil cur)
join-split_from b cur (c ∷ s) = elim (Bool-cases (c == b)) [
  | inl e ↦
      rw (e, split_from)
        (join_cons b cur (split_from b [] s) (split_from-ne-nil b [] s)
          ∙ ap (λ t. cur ++ b ∷ t) (join-split_from b [] s)
          ∙ ap (λ (x : ℕ). cur ++ x ∷ s) (sym ((==_iff c b).0 e)))
  | inr e ↦ rw (e, split_from) (join-split_from b (cur ++ c ∷ []) s ∙ append_assoc cur (c ∷ []) s)
]

-- Joining the parts of a split gives the text back.
pub join-split : (b : ℕ) (s : Bytes) → join (b ∷ []) (split b s) ≡ s
unfolding split
join-split b s = join-split_from b [] s

pub split-ne-nil : (b : ℕ) (s : Bytes) → split b s ≢ []
unfolding split
split-ne-nil b s = split_from-ne-nil b [] s
