-- ===== src/Directory/Reader.antt =====
-- internal/directory/reader.go: the read interface to Active Directory. Nothing in the repository
-- implements it.
use opengpm.Base.{List, Result}
use opengpm.Text.{Bytes}
use opengpm.Model.Som.{Som, WmiFilter, AdChildSetting}
use opengpm.Model.Gpo.{Gpo}
use opengpm.Model.Security.{Sid}

-- `Reader`, under contexts `X`, with times `T` and errors `E`; a map is a list of its entries.
pub record Reader (X T E : Type 0) : Type 0 where
  pub gpos : X → Bytes → Result E (List (Gpo T))
  pub som_tree : X → Bytes → Result E Som
  pub sites : X → Result E (List Som)
  pub wmi_filters : X → Bytes → Result E (List WmiFilter)
  pub gpo_children : X → Bytes → Result E (List AdChildSetting)
  pub resolve_sids : X → List Sid → Result E (List (Sid × Bytes))
