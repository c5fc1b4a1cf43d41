-- ===== src/Model/Security.antt =====
-- internal/model/security.go: the security-filtering test of a GPO.
pub mod Filter
pub mod Order
use Prim.Native.Nat.{bit_and, bit_or}
use opengpm.Base.{
  ℕ, List, [], ◌∷◌, Bool, true, false, not, ◌&&◌, ◌||◌, ◌==◌, Option, none, some, if◌then◌else◌,
}
use opengpm.Text.{Bytes, codes, equal}
use opengpm.Model.Som.{Guid}

abbrev pub Sid : Type 0
Sid = Bytes

-- `ReadRight` and `ApplyGroupPolicy`.
abbrev pub read_right : ℕ
read_right = 0x00020000

abbrev pub apply_group_policy : Guid
apply_group_policy = codes "edacfd8f-ffb3-11d1-b41d-00a0c968f939"

-- A value of Go's `ACEType` other than these two takes neither branch of the switch: `other`.
pub data AceType : Type 0 where
  allow deny other : AceType

pub record Ace : Type 0 where
  pub type : AceType
  pub sid : Sid
  pub access_mask : ℕ
  pub extended_rights : List Guid

pub record SecurityDescriptor : Type 0 where
  pub owner : Sid
  pub group : Sid
  pub aces : List Ace

-- The loop of `containsSID` and of `containsGUID`.
unfoldable pub contains : Bytes → List Bytes → Bool
contains x [] = false
contains x (y ∷ ys) = equal y x || contains x ys

-- The four variables of the loop.
pub record Masks : Type 0 where
  pub allow_mask : ℕ
  pub deny_mask : ℕ
  pub allow_agp : Bool
  pub deny_agp : Bool

-- `switch ace.Type`
add_ace : AceType → ℕ → Bool → Masks → Masks
add_ace allow mask has_agp m = record m {
  allow_mask = bit_or m.allow_mask mask;
  allow_agp = m.allow_agp || has_agp;
}
add_ace deny mask has_agp m = record m {
  deny_mask = bit_or m.deny_mask mask;
  deny_agp = m.deny_agp || has_agp;
}
add_ace other mask has_agp m = m

-- One round; an ACE for another SID is passed over.
unfoldable pub visit : List Sid → Masks → Ace → Masks
unfolding add_ace
visit sids m ace =
    if not (contains ace.sid sids)
    then m
    else add_ace ace.type ace.access_mask (contains apply_group_policy ace.extended_rights) m

unfoldable pub scan : List Sid → List Ace → Masks → Masks
scan sids [] m = m
scan sids (ace ∷ aces) m = scan sids aces (visit sids m ace)

abbrev pub no_masks : Masks
no_masks = record { allow_mask = 0; deny_mask = 0; allow_agp = false; deny_agp = false }

-- What is computed behind the loop.
unfoldable pub granted : Masks → Bool
granted m =
    let read_granted =
      not (bit_and m.allow_mask read_right == 0) && bit_and m.deny_mask read_right == 0 in
    let agp_granted = m.allow_agp && not m.deny_agp in read_granted && agp_granted

-- `AppliesTo`; a nil descriptor is `none`.
unfoldable pub applies_to : Option SecurityDescriptor → List Sid → Bool
applies_to none sids = false
applies_to (some sd) sids = granted (scan sids sd.aces no_masks)
