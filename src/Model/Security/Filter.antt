-- ===== src/Model/Security/Filter.antt =====
-- `AppliesTo` against the rule of its comment: a right is granted if no matching deny ACE carries
-- it and some matching allow ACE does.
use Prim.Native.Nat.{bit_and, bit_or}
use opengpm.Base.{ℕ, List, [], ◌∷◌, Bool, true, false, not, ◌&&◌, ◌||◌, ◌==◌, some, ◌≡◌, arith, any}
use opengpm.Base.Bits.{bit_and-bit_or, bit_or_bounds}
use opengpm.Model.Security.{
  Sid, Ace, AceType, allow, deny, other, SecurityDescriptor, Masks, read_right, apply_group_policy,
  contains, visit, scan, no_masks, granted, applies_to,
}

abbrev pub masked : ℕ → Bool
masked mask = not (bit_and mask read_right == 0)

-- The ACE is for one of the SIDs and carries the right.
abbrev pub carries_read : List Sid → Ace → Bool
carries_read sids a = contains a.sid sids && masked a.access_mask

abbrev pub carries_agp : List Sid → Ace → Bool
carries_agp sids a = contains a.sid sids && contains apply_group_policy a.extended_rights

abbrev pub is_allow : AceType → Bool
is_allow allow = true
is_allow deny = false
is_allow other = false

abbrev pub is_deny : AceType → Bool
is_deny allow = false
is_deny deny = true
is_deny other = false

masked-bit_or : (x y : ℕ) → masked (bit_or x y) ≡ (masked x || masked y)
masked-bit_or x y = ground (
  arith,
  bit_and-bit_or x y read_right,
  bit_or_bounds (bit_and x read_right) (bit_and y read_right),
)

-- A right, by the test that an ACE carries it for one of the SIDs.
abbrev pub allowed_by : (Ace → Bool) → List Ace → Bool
allowed_by carries = any (λ a. is_allow a.type && carries a)

abbrev pub denied_by : (Ace → Bool) → List Ace → Bool
denied_by carries = any (λ a. is_deny a.type && carries a)

-- GRANTED of the comment.
abbrev pub granted_by : (Ace → Bool) → List Ace → Bool
granted_by carries aces = allowed_by carries aces && not (denied_by carries aces)

-- What the loop's variables tell of the ACEs visited since `m`.
record Tells (sids : List Sid) (aces : List Ace) (m n : Masks) : Type 0 where
  read_allowed : masked n.allow_mask ≡ (masked m.allow_mask || allowed_by (carries_read sids) aces)
  read_denied : masked n.deny_mask ≡ (masked m.deny_mask || denied_by (carries_read sids) aces)
  agp_allowed : n.allow_agp ≡ (m.allow_agp || allowed_by (carries_agp sids) aces)
  agp_denied : n.deny_agp ≡ (m.deny_agp || denied_by (carries_agp sids) aces)

visit-Tells : (sids : List Sid) (m : Masks) (a : Ace) → Tells sids (a ∷ []) m (visit sids m a)
unfolding visit
visit-Tells sids m a =
    ground
      (arith, masked-bit_or m.allow_mask a.access_mask, masked-bit_or m.deny_mask a.access_mask)

Tells-cons :
    {sids : List Sid} {a : Ace} {aces : List Ace} {m n p : Masks}
    → Tells sids (a ∷ []) m n
    → Tells sids aces n p
    → Tells sids (a ∷ aces) m p
Tells-cons s t = record {
  read_allowed = ground arith;
  read_denied = ground arith;
  agp_allowed = ground arith;
  agp_denied = ground arith;
}

scan-Tells : (sids : List Sid) (aces : List Ace) (m : Masks) → Tells sids aces m (scan sids aces m)
unfolding scan
scan-Tells sids [] m = ground arith
scan-Tells sids (a ∷ aces) m =
    Tells-cons (visit-Tells sids m a) (scan-Tells sids aces (visit sids m a))

-- `AppliesTo` is true exactly when both rights are granted by the rule of its comment.
pub applies_to-granted_by :
    (sd : SecurityDescriptor) (sids : List Sid)
    → applies_to (some sd) sids
      ≡ (granted_by (carries_read sids) sd.aces && granted_by (carries_agp sids) sd.aces)
unfolding applies_to granted
applies_to-granted_by sd sids = ground (arith, scan-Tells sids sd.aces no_masks)
