-- ===== src/Model/Gpo.antt =====
-- internal/model/gpo.go: a group policy object, with the versions of both of its halves.
use opengpm.Base.{ℕ, List, Option}
use opengpm.Base.Int.{ℤ}
use opengpm.Text.{Bytes}
use opengpm.Model.Som.{Guid}
use opengpm.Model.Security.{SecurityDescriptor}

-- `GPOFlags`, a uint8.
abbrev pub GpoFlags : Type 0
GpoFlags = ℕ

abbrev pub gpo_enabled : GpoFlags
gpo_enabled = 0

abbrev pub gpo_user_disabled : GpoFlags
gpo_user_disabled = 1

abbrev pub gpo_computer_disabled : GpoFlags
gpo_computer_disabled = 2

abbrev pub gpo_all_disabled : GpoFlags
gpo_all_disabled = 3

abbrev pub CseRef : Type 0
CseRef = Bytes

abbrev pub WmiFilterRef : Type 0
WmiFilterRef = Guid

-- `GPO`; `T` is `time.Time`. The four versions are uint16.
pub record Gpo (T : Type 0) : Type 0 where
  pub id : Guid
  pub display_name : Bytes
  pub domain_dn : Bytes
  pub file_sys_path : Bytes
  pub user_version : ℕ
  pub computer_version : ℕ
  pub sysvol_user_version : ℕ
  pub sysvol_computer_version : ℕ
  pub flags : GpoFlags
  pub functionality_version : ℤ
  pub machine_extensions : List CseRef
  pub user_extensions : List CseRef
  pub wmi_filter : Option WmiFilterRef
  pub security : Option SecurityDescriptor
  pub when_created : T
  pub when_changed : T
