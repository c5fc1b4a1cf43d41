-- ===== src/Transport/Krb/Causes.antt =====
-- `classify` of internal/transport/krb/krb.go: which sentinel an error gets, and when the order in
-- which the loop meets the map's entries matters.
use mathlib.Core.Path.{subst}
use mathlib.Core.List.{Permᴰ}
use mathlib.Core.List.Permᴰ as permutations
use opengpm.Base.{
  or_false, List, [], ◌∷◌, ◌++◌, ◌≡◌, ◌≢◌, ◌↔◌, ◌⊎◌, inl, inr, refl, sym, ap, ◌∙◌, Bool, true,
  false, ◌||◌, Option, none, some, Option-cases, Bool-cases, if◌then◌else◌, arith, All, All-perm,
}
use opengpm.Text.{Bytes, codes}
use opengpm.Text.Search.{contains, contains-append}
use opengpm.Transport.Krb.{
  Sentinel, Refusal, Failure, Classified, stale_kvno, bad_key, kdc_unreachable, known, unrecognised,
  Texts, classify, classify_text,
}
use opengpm.Transport.Krb.Miss.Matches.{keytab_miss_sound}
use opengpm.Transport.Krb.Miss.{needle, label, keytab_miss}

-- The failure renders the code of the entry.
abbrev pub Renders : Texts → Failure → Refusal → Type 0
Renders texts f r = contains f.msg (texts.lookup r.code) ≡ true

-- All entries whose code the failure renders have the sentinel `s`.
abbrev pub AllNamed : Texts → Failure → Sentinel → List Refusal → Type 0
AllNamed texts f s = All (λ r. Renders texts f r → r.sentinel ≡ s)

classify_step :
    (texts : Texts) (f : Failure) (r : Refusal) (rs : List Refusal)
    → (Renders texts f r × (classify texts (r ∷ rs) f ≡ known r.sentinel f))
      ⊎ ((Renders texts f r → ⊥) × (classify texts (r ∷ rs) f ≡ classify texts rs f))
unfolding classify
classify_step texts f r rs = ground (arith, Bool-cases (contains f.msg (texts.lookup r.code)))

-- None rendered: the texts decide. One rendered: its sentinel.
classify_cases :
    (texts : Texts) (f : Failure) (s : Sentinel) (rs : List Refusal)
    → AllNamed texts f s rs
    → (All (λ r. Renders texts f r → ⊥) rs × (classify texts rs f ≡ classify_text texts f))
      ⊎ ((All (λ r. Renders texts f r → ⊥) rs → ⊥) × (classify texts rs f ≡ known s f))
unfolding classify
classify_cases texts f s [] h = inl (tt, refl)
classify_cases texts f s (r ∷ rs) (h, hs) = elim (classify_step texts f r rs) [
  | inl (renders, e) ↦ inr ((λ n. n.0 renders), e ∙ ap (λ x. known x f) (h renders))
  | inr (silent, e) ↦ elim (classify_cases texts f s rs hs) [
    | inl (ns, e') ↦ inl ((silent, ns), e ∙ e')
    | inr (n, e') ↦ inr ((λ m. n m.1), e ∙ e')
  ]
]

-- Where the codes that an error renders all stand for one sentinel, `classify` gives the same
-- result in whatever order the loop meets the entries of the map.
pub classify-order :
    (texts : Texts) (f : Failure) (s : Sentinel) {rs rs' : List Refusal}
    → Permᴰ rs rs'
    → AllNamed texts f s rs
    → classify texts rs f ≡ classify texts rs' f
classify-order texts f s {rs = rs} {rs' = rs'} d named =
    let Named : Refusal → Type 0 = λ r. Renders texts f r → r.sentinel ≡ s in
    let Silent : Refusal → Type 0 = λ r. Renders texts f r → ⊥ in
    elim (classify_cases texts f s rs named) [
      | inl (ns, e) ↦ elim (classify_cases texts f s rs' (All-perm Named d named)) [
        | inl (_, e') ↦ e ∙ sym e'
        | inr (n, e') ↦ absurd (n (All-perm Silent d ns))
      ]
      | inr (n, e) ↦ elim (classify_cases texts f s rs' (All-perm Named d named)) [
        | inl (ns, _) ↦ absurd (n (All-perm Silent (permutations.symm d) ns))
        | inr (_, e') ↦ e ∙ sym e'
      ]
    ]

-- The error has none of the causes that the package knows: it renders none of the codes, and has
-- neither of gokrb5's two texts on keys in it, nor a network error, nor the text of one.
pub record IsUnknown (texts : Texts) (rs : List Refusal) (f : Failure) : Type 0 where
  pub silent : All (λ r. Renders texts f r → ⊥) rs
  pub no_miss : contains f.msg needle ≡ false
  pub no_integrity : contains f.msg (codes "integrity verification failed") ≡ false
  pub no_network : f.network ≡ false
  pub no_network_text : contains f.msg texts.networking_error ≡ false

classify_silent :
    (texts : Texts) (f : Failure) (rs : List Refusal)
    → All (λ r. Renders texts f r → ⊥) rs
    → classify texts rs f ≡ classify_text texts f
unfolding classify
classify_silent texts f [] h = refl
classify_silent texts f (r ∷ rs) (h, hs) = elim (classify_step texts f r rs) [
  | inl (renders, _) ↦ absurd (h renders)
  | inr (_, e) ↦ e ∙ classify_silent texts f rs hs
]

classify_unrecognised :
    (texts : Texts) (f : Failure) (rs : List Refusal)
    → classify texts rs f ≡ unrecognised f
    → All (λ r. Renders texts f r → ⊥) rs × (classify_text texts f ≡ unrecognised f)
unfolding classify
classify_unrecognised texts f [] h = (tt, h)
classify_unrecognised texts f (r ∷ rs) h = elim (classify_step texts f r rs) [
  | inl (_, e) ↦ absurd (cc)
  | inr (silent, e) ↦
      let (rest, text) = classify_unrecognised texts f rs (sym e ∙ h) in ((silent, rest), text)
]

-- The regular expression matches only where its first words are in the text.
keytab_miss-needle : (s : Bytes) → contains s needle ≡ false → keytab_miss s ≡ none
keytab_miss-needle s h = elim (Option-cases (keytab_miss s)) [
  | inl e ↦ e
  | inr (d, e) ↦
      let m = keytab_miss_sound s e in
      let rest = m.between ++ label ++ d ++ m.after in
      let found =
        subst (λ x. contains x needle ≡ true) (sym m.splits)
          (contains-append m.before needle rest) in
      absurd (cc)
]

-- The `switch` on what its tests gave.
abbrev chosen : Option Bytes → Bool → Bool → Bool → Failure → Classified
chosen (some d) key integrity net f = known stale_kvno f
chosen none key integrity net f =
    if key
    then known bad_key f
    else if integrity
    then known bad_key f
    else if net
    then known kdc_unreachable f
    else unrecognised f

chosen-unrecognised :
    (o : Option Bytes) (key integrity net : Bool) (f : Failure)
    → chosen o key integrity net f ≡ unrecognised f
    → (key ≡ false) × (integrity ≡ false) × (net ≡ false)
chosen-unrecognised (some d) key integrity net f h = absurd (cc)
chosen-unrecognised none true integrity net f h = absurd (cc)
chosen-unrecognised none false true net f h = absurd (cc)
chosen-unrecognised none false false true f h = absurd (cc)
chosen-unrecognised none false false false f h = (refl, refl, refl)

classify_text-chosen :
    (texts : Texts) (f : Failure)
    → classify_text texts f
      ≡ chosen
          (keytab_miss f.msg)
          (contains f.msg needle)
          (contains f.msg (codes "integrity verification failed"))
          (f.network || contains f.msg texts.networking_error)
          f
unfolding classify_text
classify_text-chosen texts f = elim (Option-cases (keytab_miss f.msg)) [
  | inl e ↦ rw (e, classify_text) refl
  | inr (d, e) ↦ rw (e, classify_text) refl
]

-- `classify` reports an error as unrecognised exactly if it has none of the causes that the package
-- knows.
pub classify_unrecognised_iff :
    (texts : Texts) (rs : List Refusal) (f : Failure)
    → (classify texts rs f ≡ unrecognised f) ↔ IsUnknown texts rs f
classify_unrecognised_iff texts rs f = (
  λ h.
      let (silent, text) = classify_unrecognised texts f rs h in
      let net = f.network || contains f.msg texts.networking_error in
      let (key, integrity, off) =
        chosen-unrecognised (keytab_miss f.msg) (contains f.msg needle)
          (contains f.msg (codes "integrity verification failed")) net f
          (sym (classify_text-chosen texts f) ∙ text) in
      let (a, b) = or_false f.network (contains f.msg texts.networking_error) off in
      record {
        silent = silent;
        no_miss = key;
        no_integrity = integrity;
        no_network = a;
        no_network_text = b;
      },
  λ u.
      classify_silent texts f rs u.silent
      ∙ classify_text-chosen texts f
      ∙ rw
          (
            keytab_miss-needle f.msg u.no_miss,
            u.no_miss,
            u.no_integrity,
            u.no_network,
            u.no_network_text,
          )
          refl,
)

-- Where an error renders the codes of two entries with different sentinels, `classify` gives
-- different results in the two orders that meet these entries first.
pub classify_ambiguous :
    (texts : Texts) (f : Failure) (r r' : Refusal) (rs : List Refusal)
    → Renders texts f r
    → Renders texts f r'
    → r.sentinel ≢ r'.sentinel
    → classify texts (r ∷ r' ∷ rs) f ≢ classify texts (r' ∷ r ∷ rs) f
unfolding classify
classify_ambiguous texts f r r' rs h h' differ same =
    let first : classify texts (r ∷ r' ∷ rs) f ≡ known r.sentinel f = rw h refl in
    let second : classify texts (r' ∷ r ∷ rs) f ≡ known r'.sentinel f = rw h' refl in
    let both : known r.sentinel f ≡ known r'.sentinel f = sym first ∙ same ∙ second in differ (cc)
