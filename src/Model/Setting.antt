-- ===== src/Model/Setting.antt =====
-- internal/model/setting.go: policy settings and their snapshot-stable keys.
pub mod Key
use opengpm.Base.{ℕ, List, [], ◌∷◌, ◌++◌, Bool}
use opengpm.Text.{Bytes}

-- `Class` of gpo.go.
pub data Class : Type 0 where
  machine user both : Class

pub data SettingSource : Type 0 where
  registry sec_edit gpp script folder_redirect audit wireless software : SettingSource

pub data SettingState : Type 0 where
  enabled disabled not_configured : SettingState

pub record Element : Type 0 where
  pub name : Bytes
  pub value : Bytes

-- `data` is a reserved word: the field is `payload`.
pub record RawValue : Type 0 where
  pub key : Bytes
  pub value : Bytes
  pub type : ℕ
  pub payload : Bytes

pub record Setting : Type 0 where
  pub class : Class
  pub source : SettingSource
  pub category : List Bytes
  pub name : Bytes
  pub state : SettingState
  pub elements : List Element
  pub raw : List RawValue
  pub comment : Bytes
  pub unresolved : Bool

pub record SettingKey : Type 0 where
  pub class : Class
  pub source : SettingSource
  pub id : Bytes

-- The ID, from the source, the name and the raw values.
unfoldable pub key_id : SettingSource → Bytes → List RawValue → Bytes
key_id registry name (r ∷ raw) = r.key ++ b'\\' ∷ r.value
key_id _ name raw = name

-- `Setting.Key`
unfoldable pub setting_key : Setting → SettingKey
unfolding key_id
setting_key s = record { class = s.class; source = s.source; id = key_id s.source s.name s.raw }
