-- ===== src/Tests/ModelTests.antt =====
-- internal/model on concrete descriptors and settings.
use mathlib.Core.List.Perm
use opengpm.Base.{[], ◌∷◌, true, false, ◌&&◌, ◌≡◌, ◌↔◌, refl, none, some, arith}
use opengpm.Text.{Bytes, codes, equal}
use opengpm.Model.Security.{
  Ace, allow, deny, Sid, SecurityDescriptor, apply_group_policy, applies_to, scan, visit, contains,
  granted,
}
use opengpm.Model.Security.Filter.{granted_by, carries_read, carries_agp, applies_to-granted_by}
use opengpm.Model.Security.Order.{
  windows_applies_to, is_canonical, applies_to-perm, applies_to_canonical, applies_to_fails_safe,
}
use opengpm.Model.Setting.{Setting, RawValue, machine, registry, enabled, setting_key}
use opengpm.Model.Setting.Key.{IsKeyedBy, setting_key_iff, setting_key_collision}

abbrev users : Sid
users = codes "S-1-5-11"

abbrev guests : Sid
guests = codes "S-1-5-32-546"

abbrev grant : Ace
grant = record {
  type = allow;
  sid = users;
  access_mask = 0x00020094;
  extended_rights = apply_group_policy ∷ [];
}

abbrev refuse : Ace
refuse = record { type = deny; sid = guests; access_mask = 0x00020000; extended_rights = [] }

abbrev canonical : SecurityDescriptor
canonical = record { owner = users; group = users; aces = refuse ∷ grant ∷ [] }

abbrev swapped : SecurityDescriptor
swapped = record { owner = users; group = users; aces = grant ∷ refuse ∷ [] }

applies-canonical :
    (applies_to (some canonical) (users ∷ []) ≡ true)
    × (applies_to (some canonical) (users ∷ guests ∷ []) ≡ false)
    × (applies_to none (users ∷ []) ≡ false)
unfolding applies_to scan visit contains granted equal
applies-canonical = (refl, refl, refl)

canonical_order : is_canonical canonical.aces ≡ true
unfolding is_canonical
canonical_order = refl

applies_to-granted_by_example : applies_to (some swapped) (users ∷ []) ≡ (
    granted_by (carries_read (users ∷ [])) swapped.aces
    && granted_by (carries_agp (users ∷ [])) swapped.aces)
applies_to-granted_by_example = applies_to-granted_by swapped (users ∷ [])

applies_to-perm_example :
    applies_to (some canonical) (users ∷ []) ≡ applies_to (some swapped) (users ∷ [])
applies_to-perm_example = applies_to-perm (users ∷ []) canonical swapped (Perm.swap grant refuse [])

applies_to_canonical_example :
    applies_to (some canonical) (users ∷ guests ∷ [])
    ≡ windows_applies_to canonical (users ∷ guests ∷ [])
applies_to_canonical_example = applies_to_canonical canonical (users ∷ guests ∷ []) canonical_order

applies_to_fails_safe_example : windows_applies_to canonical (users ∷ []) ≡ true
applies_to_fails_safe_example = applies_to_fails_safe canonical (users ∷ []) applies-canonical.0

abbrev raw : Bytes → Bytes → RawValue
raw k v = record { key = k; value = v; type = 4; payload = 1 ∷ 0 ∷ 0 ∷ 0 ∷ [] }

abbrev setting : Bytes → RawValue → Setting
setting name r = record {
  class = machine;
  source = registry;
  category = [];
  name = name;
  state = enabled;
  elements = [];
  raw = r ∷ [];
  comment = [];
  unresolved = false;
}

setting-IsKeyedBy : (name : Bytes) (r : RawValue) → IsKeyedBy (setting name r) r
setting-IsKeyedBy name r = record { from_registry = refl; rest = []; primary = refl }

abbrev update : RawValue
update = raw (codes "Software\\Policies") (codes "NoAutoUpdate")

setting_key_iff_example :
    (setting_key (setting (codes "Updates") update) ≡ setting_key (setting (codes "?") update))
    ↔ ((machine ≡ machine) × (update.key ≡ update.key) × (update.value ≡ update.value))
setting_key_iff_example =
    setting_key_iff (setting (codes "Updates") update) (setting (codes "?") update) update update
      (setting-IsKeyedBy (codes "Updates") update) (setting-IsKeyedBy (codes "?") update)
      (omega arith) (omega arith)

abbrev deep : RawValue
deep = raw (codes "Software") (codes "Policies\\X")

abbrev shallow : RawValue
shallow = raw (codes "Software\\Policies") (codes "X")

setting_key_collision_example :
    setting_key (setting (codes "a") deep) ≡ setting_key (setting (codes "b") shallow)
setting_key_collision_example =
    setting_key_collision (codes "Software") (codes "Policies") (codes "X")
      (setting (codes "a") deep) (setting (codes "b") shallow) deep shallow
      (setting-IsKeyedBy (codes "a") deep) (setting-IsKeyedBy (codes "b") shallow) refl (refl, refl)
      (refl, refl)
