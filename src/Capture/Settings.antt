-- ===== src/Capture/Settings.antt =====
-- `readEnv` of scripts/capture-gpo/main.go.
use mathlib.Core.Path.{subst}
use opengpm.Base.{
  List, [], ◌∷◌, ◌≡◌, ◌≢◌, ◌↔◌, ◌⊎◌, refl, sym, ap, ◌∙◌, inl, inr, true, false, Bool-cases, ok, err,
  All,
}
use opengpm.Text.{Bytes}
use opengpm.Capture.{Config, is_unset, missing, unless_missing, environment, required, read_env}

-- The second list has those of the first that are not set, in order.
pub data Unset (getenv : Bytes → Bytes) : List Bytes → List Bytes → Type 0 where
  no_variables : Unset getenv [] []
  and_set :
      (k : Bytes) {ks names : List Bytes}
      → getenv k ≢ []
      → Unset getenv ks names
      → Unset getenv (k ∷ ks) names
  and_unset :
      (k : Bytes) {ks names : List Bytes}
      → getenv k ≡ []
      → Unset getenv ks names
      → Unset getenv (k ∷ ks) (k ∷ names)

Unset-unique :
    (getenv : Bytes → Bytes) {ks names names' : List Bytes}
    → Unset getenv ks names
    → Unset getenv ks names'
    → names ≡ names'
Unset-unique getenv no_variables no_variables = refl
Unset-unique getenv (and_set _ h u) (and_set _ h' u') = Unset-unique getenv u u'
Unset-unique getenv (and_set _ h u) (and_unset _ h' u') = absurd (h h')
Unset-unique getenv (and_unset _ h u) (and_set _ h' u') = absurd (h' h)
Unset-unique getenv (and_unset k h u) (and_unset _ h' u') =
    ap (λ names. k ∷ names) (Unset-unique getenv u u')

module _ (wide getenv : Bytes → Bytes) where
  is_unset-ne-nil : (s : Bytes) → is_unset wide getenv s ≡ false → s ≢ []
  unfolding is_unset
  is_unset-ne-nil [] h = cc
  is_unset-ne-nil (c ∷ s) h = λ e. cc

  is_unset-nil : (s : Bytes) → is_unset wide getenv s ≡ true → s ≡ []
  unfolding is_unset
  is_unset-nil [] h = refl
  is_unset-nil (c ∷ s) h = cc

  -- All are set and none is missing, or not all are set and some are missing.
  missing-cases :
      (ks : List Bytes)
      → (All (λ k. getenv k ≢ []) ks × (missing wide getenv ks ≡ []))
        ⊎ ((All (λ k. getenv k ≢ []) ks → ⊥) × (missing wide getenv ks ≢ []))
  unfolding missing
  missing-cases [] = inl (tt, refl)
  missing-cases (k ∷ ks) = elim (Bool-cases (is_unset wide getenv (getenv k))) [
    | inl e ↦ inr ((λ all_set. all_set.0 (is_unset-nil (getenv k) e)), rw e (λ h. cc))
    | inr e ↦ elim (missing-cases ks) [
      | inl (rest, none_missing) ↦ inl ((is_unset-ne-nil (getenv k) e, rest), rw e none_missing)
      | inr (not_all, some_missing) ↦ inr ((λ all_set. not_all all_set.1), rw e some_missing)
    ]
  ]

  missing-Unset : (ks : List Bytes) → Unset getenv ks (missing wide getenv ks)
  unfolding missing
  missing-Unset [] = no_variables
  missing-Unset (k ∷ ks) = elim (Bool-cases (is_unset wide getenv (getenv k))) [
    | inl e ↦ rw e (and_unset k (is_unset-nil (getenv k) e) (missing-Unset ks))
    | inr e ↦ rw e (and_set k (is_unset-ne-nil (getenv k) e) (missing-Unset ks))
  ]

  unless_missing_ok :
      (ks : List Bytes) {c : Config}
      → unless_missing wide getenv ks ≡ ok c
      → (ks ≡ []) × (c ≡ environment wide getenv)
  unfolding unless_missing
  unless_missing_ok [] h = (refl, cc)
  unless_missing_ok (k ∷ ks) h = absurd (cc)

  unless_missing_err :
      (ks : List Bytes) {names : List Bytes}
      → unless_missing wide getenv ks ≡ err names
      → (names ≢ []) × (ks ≡ names)
  unfolding unless_missing
  unless_missing_err [] h = absurd (cc)
  unless_missing_err (k ∷ ks) h = ((λ e. absurd (cc)), cc)

  unless_missing-nonempty : (ks : List Bytes) → ks ≢ [] → unless_missing wide getenv ks ≡ err ks
  unfolding unless_missing
  unless_missing-nonempty [] h = absurd (h refl)
  unless_missing-nonempty (k ∷ ks) h = refl

  read_env_set :
      All (λ k. getenv k ≢ []) required → read_env wide getenv ≡ ok (environment wide getenv)
  unfolding read_env
  read_env_set all_set = elim (missing-cases required) [
    | inl (_, none_missing) ↦ rw (none_missing, unless_missing) refl
    | inr (not_all, _) ↦ absurd (not_all all_set)
  ]

  read_env-Unset :
      {names : List Bytes}
      → Unset getenv required names
      → names ≢ []
      → read_env wide getenv ≡ err names
  unfolding read_env
  read_env-Unset {names} unset some_names =
      subst (λ l. unless_missing wide getenv l ≡ err names)
        (Unset-unique getenv unset (missing-Unset required))
        (unless_missing-nonempty names some_names)

  -- What `readEnv` returns was read from six variables that are set.
  pub read_env_ok :
      {c : Config}
      → read_env wide getenv ≡ ok c
      → (c ≡ environment wide getenv) × All (λ k. getenv k ≢ []) required
  unfolding read_env
  read_env_ok {c} h =
      let (none_missing, same) = unless_missing_ok (missing wide getenv required) h in
      (
        same,
        elim (missing-cases required) [
          | inl (all_set, _) ↦ all_set
          | inr (_, some_missing) ↦ absurd (some_missing none_missing)
        ],
      )

  read_env_err :
      {names : List Bytes}
      → read_env wide getenv ≡ err names
      → (names ≢ []) × Unset getenv required names
  unfolding read_env
  read_env_err {names} h =
      let (some_names, same) = unless_missing_err (missing wide getenv required) h in
      (some_names, subst (Unset getenv required) same (missing-Unset required))

  -- `readEnv` succeeds exactly if all of the six variables are set, and returns what they say. It
  -- fails exactly if some are not, and its error lists every one of these, in order, and no other.
  pub read_env_iff :
      (c : Config) (names : List Bytes)
      → ((read_env wide getenv ≡ ok c)
          ↔ ((c ≡ environment wide getenv) × All (λ k. getenv k ≢ []) required))
        × ((read_env wide getenv ≡ err names) ↔ ((names ≢ []) × Unset getenv required names))
  read_env_iff c names = (
    (read_env_ok, λ (same, all_set). read_env_set all_set ∙ ap ok (sym same)),
    (read_env_err, λ (some_names, unset). read_env-Unset unset some_names),
  )
