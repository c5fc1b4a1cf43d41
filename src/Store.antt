-- ===== src/Store.antt =====
-- internal/store/store.go: the content-addressed store of snapshots, an interface with the contract
-- that its comments state. Nothing in the repository implements it.
pub mod Contract
use opengpm.Base.{List, Option, Result}
use opengpm.Text.{Bytes}
use opengpm.Model.Som.{Guid, Som, WmiFilter}
use opengpm.Model.Gpo.{Gpo}
use opengpm.Model.Setting.{Setting, SettingKey}

abbrev pub TenantId : Type 0
TenantId = Bytes

abbrev pub DomainId : Type 0
DomainId = Bytes

abbrev pub SnapshotId : Type 0
SnapshotId = Bytes

-- `Snapshot`; `T` is `time.Time`, and the map of settings is a list of its entries.
pub record Snapshot (T : Type 0) : Type 0 where
  pub taken_at : T
  pub gpos : List (Gpo T)
  pub settings : List (Guid × List Setting)
  pub som : Option Som
  pub sites : List Som
  pub wmi_filters : List WmiFilter

pub record SnapshotInfo (T : Type 0) : Type 0 where
  pub id : SnapshotId
  pub taken_at : T

-- An empty field means "all".
pub record Scope : Type 0 where
  pub tenant : TenantId
  pub domain : DomainId
  pub gpo : Guid
  pub snapshot : SnapshotId

pub record Hit : Type 0 where
  pub snapshot : SnapshotId
  pub gpo : Guid
  pub key : SettingKey
  pub setting : Setting

-- `Store`, as operations on what is stored, `S`; contexts are left out, and errors are `E`.
pub record Store (S T E : Type 0) : Type 0 where
  pub put_snapshot : S → TenantId → DomainId → Snapshot T → Result E SnapshotId × S
  pub get_snapshot : S → TenantId → DomainId → SnapshotId → Result E (Snapshot T)
  pub list_snapshots : S → TenantId → DomainId → Result E (List (SnapshotInfo T))
  pub search : S → Bytes → Scope → Result E (List Hit)
