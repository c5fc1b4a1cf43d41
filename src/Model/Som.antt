-- ===== src/Model/Som.antt =====
-- internal/model/som.go: scopes of management and what is linked to them; `GUID` of gpo.go.
use opengpm.Base.{ℕ, List, Bool}
use opengpm.Text.{Bytes}

-- `GUID`: a text in braces.
abbrev pub Guid : Type 0
Guid = Bytes

pub data SomKind : Type 0 where
  domain ou site : SomKind

-- `Link`: one gPLink entry; `order` is 1 for the highest precedence.
pub record Link : Type 0 where
  pub gpo : Guid
  pub gpo_dn : Bytes
  pub options : ℕ
  pub order : ℕ

-- `SOM`: its DN, name, kind, links, whether it blocks inheritance, and its children. The code's
-- children are pointers; what they point to is a tree here.
mutual
  pub data Som : Type 0 where
    som : Bytes → Bytes → SomKind → List Link → Bool → Soms → Som

  pub data Soms : Type 0 where
    no_soms : Soms
    and_som : Som → Soms → Soms

-- `WMIFilter`; the query is text for display.
pub record WmiFilter : Type 0 where
  pub guid : Guid
  pub name : Bytes
  pub query : Bytes

pub record AdChildSetting : Type 0 where
  pub kind : Bytes
  pub payload : Bytes
  pub unresolved : Bool
