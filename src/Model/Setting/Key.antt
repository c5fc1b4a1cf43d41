-- ===== src/Model/Setting/Key.antt =====
-- When two settings have one key.
use opengpm.Base.{List, ◌∷◌, ◌++◌, ◌≡◌, ◌↔◌, sym, ap, ◌∙◌, length, drop, suc, append_assoc}
use mathlib.Core.Path.{ap₂}
use opengpm.Text.{Bytes, Lacks}
use opengpm.Text.Search.{last_index_byte, last_index_byte-append, take_before, drop_past}
use opengpm.Base.{take}
use opengpm.Model.Setting.{registry, RawValue, Setting, SettingKey, setting_key}

-- The key/value path determines its two parts where the value name holds no backslash.
joined_injective :
    (k v k' v' : Bytes)
    → Lacks b'\\' v
    → Lacks b'\\' v'
    → (k ++ b'\\' ∷ v) ≡ (k' ++ b'\\' ∷ v')
    → (k ≡ k') × (v ≡ v')
joined_injective k v k' v' lv lv' e =
    let found =
      sym (last_index_byte-append k b'\\' v lv)
      ∙ ap (λ t. last_index_byte t b'\\') e
      ∙ last_index_byte-append k' b'\\' v' lv' in
    let same : length k ≡ length k' = cc found in
    (
      sym (take_before k b'\\' v) ∙ ap₂ take same e ∙ take_before k' b'\\' v',
      sym (drop_past k b'\\' v) ∙ ap₂ (λ n t. drop (suc n) t) same e ∙ drop_past k' b'\\' v',
    )

-- The primary registry value that a setting is keyed by.
pub record IsKeyedBy (s : Setting) (r : RawValue) : Type 0 where
  pub from_registry : s.source ≡ registry
  pub rest : List RawValue
  pub primary : s.raw ≡ r ∷ rest

key_of :
    {s : Setting} {r : RawValue}
    → IsKeyedBy s r
    → setting_key s ≡ record { class = s.class; source = registry; id = r.key ++ b'\\' ∷ r.value }
unfolding setting_key
key_of {s} {r} k = rw (k.from_registry, k.primary)

-- Two registry settings whose primary value names hold no backslash have one key exactly when
-- they agree on the class, the registry key and the value name. Nothing else of a setting
-- matters: not its display name, its state or its further values.
pub setting_key_iff :
    (s s' : Setting) (r r' : RawValue)
    → IsKeyedBy s r
    → IsKeyedBy s' r'
    → Lacks b'\\' r.value
    → Lacks b'\\' r'.value
    → (setting_key s ≡ setting_key s')
      ↔ ((s.class ≡ s'.class) × (r.key ≡ r'.key) × (r.value ≡ r'.value))
setting_key_iff s s' r r' k k' lv lv' = (to, from)
  where
    to :
        setting_key s ≡ setting_key s'
        → (s.class ≡ s'.class) × (r.key ≡ r'.key) × (r.value ≡ r'.value)
    to e =
        let whole = sym (key_of k) ∙ e ∙ key_of k' in
        let (same_key, same_value) =
          joined_injective r.key r.value r'.key r'.value lv lv'
            (ap (λ (x : SettingKey). x.id) whole) in
        (ap (λ (x : SettingKey). x.class) whole, same_key, same_value)

    from :
        ((s.class ≡ s'.class) × (r.key ≡ r'.key) × (r.value ≡ r'.value))
        → setting_key s ≡ setting_key s'
    from (c, e, f) =
        key_of k
        ∙ (λ i. record { class = c i; source = registry; id = e i ++ b'\\' ∷ f i })
        ∙ sym (key_of k')

-- A backslash may stand in a value name, and then the key does not determine the value: a value
-- `a\b` under `k` and a value `b` under `k\a` are keyed alike.
pub setting_key_collision :
    (k a b : Bytes) (s s' : Setting) (r r' : RawValue)
    → IsKeyedBy s r
    → IsKeyedBy s' r'
    → s.class ≡ s'.class
    → (r.key ≡ k) × (r.value ≡ a ++ b'\\' ∷ b)
    → (r'.key ≡ k ++ b'\\' ∷ a) × (r'.value ≡ b)
    → setting_key s ≡ setting_key s'
setting_key_collision k a b s s' r r' kr kr' c (e, f) (e', f') =
    key_of kr
    ∙ (λ i. record { class = c i; source = registry; id = e i ++ b'\\' ∷ f i })
    ∙ ap (λ (t : Bytes). record { class = s'.class; source = registry; id = t })
        (sym (append_assoc k (b'\\' ∷ a) (b'\\' ∷ b)))
    ∙ sym (λ i. record { class = s'.class; source = registry; id = e' i ++ b'\\' ∷ f' i })
    ∙ sym (key_of kr')
