-- ===== src/Model/Security/Order.antt =====
-- The order of the ACEs: it does not matter to `AppliesTo`, and on a canonical list the test
-- agrees with an evaluation that stops at the first ACE that decides, as Windows does.
use mathlib.Core.List.{Perm, Permᴰ}
use mathlib.Core.Logic.{∥∥₁_elim}
use opengpm.Base.{
  Bool-set, List, [], ◌∷◌, Bool, true, false, not, ◌&&◌, ◌||◌, some, if◌then◌else◌, ◌≡◌, refl, sym,
  ◌∙◌, ap, arith,
}
use mathlib.Core.Path.{ap₂}
use opengpm.Base.{any as any_of}
use opengpm.Model.Security.{Sid, Ace, SecurityDescriptor, applies_to}
use opengpm.Model.Security.Filter.{
  is_allow, is_deny, carries_read, carries_agp, denied_by, granted_by, applies_to-granted_by,
}

any_of-perm : (p : Ace → Bool) {xs ys : List Ace} → Permᴰ xs ys → any_of p xs ≡ any_of p ys
any_of-perm p Permᴰ.nil = refl
any_of-perm p (Permᴰ.cons e d) = ap₂ ◌||◌ (ap p e) (any_of-perm p d)
any_of-perm p (Permᴰ.swap {a} {b} {a'} {b'} {l} e f) = ground (arith, ap p e, ap p f)
any_of-perm p (Permᴰ.trans d e) = any_of-perm p d ∙ any_of-perm p e

granted_by-perm :
    (carries : Ace → Bool) {xs ys : List Ace}
    → Permᴰ xs ys
    → granted_by carries xs ≡ granted_by carries ys
granted_by-perm carries d =
    ap₂ (λ x y. x && not y) (any_of-perm (λ a. is_allow a.type && carries a) d)
      (any_of-perm (λ a. is_deny a.type && carries a) d)

-- Rearranging the ACEs of a descriptor never changes the outcome.
pub applies_to-perm :
    (sids : List Sid) (sd sd' : SecurityDescriptor)
    → Perm sd.aces sd'.aces
    → applies_to (some sd) sids ≡ applies_to (some sd') sids
applies_to-perm sids sd sd' p =
    rw (applies_to-granted_by sd sids, applies_to-granted_by sd' sids)
      (∥∥₁_elim p (Bool-set _ _) (λ d.
        ap₂ ◌&&◌ (granted_by-perm (carries_read sids) d) (granted_by-perm (carries_agp sids) d)))

-- The first ACE that carries the right decides; with none the right is not granted.
pub first_match : (Ace → Bool) → List Ace → Bool
first_match carries [] = false
first_match carries (a ∷ aces) =
    if is_allow a.type && carries a
    then true
    else if is_deny a.type && carries a
    then false
    else first_match carries aces

-- Windows' outcome for the two rights together.
pub windows_applies_to : SecurityDescriptor → List Sid → Bool
unfolding first_match
windows_applies_to sd sids =
    first_match (carries_read sids) sd.aces && first_match (carries_agp sids) sd.aces

-- Every deny ACE stands before every allow ACE.
unfoldable pub is_canonical : List Ace → Bool
is_canonical [] = true
is_canonical (a ∷ aces) =
    not (is_allow a.type && any_of (λ b. is_deny b.type) aces) && is_canonical aces

denied_by_deny :
    (carries : Ace → Bool) (aces : List Ace)
    → any_of (λ b. is_deny b.type) aces ≡ false
    → denied_by carries aces ≡ false
denied_by_deny carries [] h = refl
denied_by_deny carries (a ∷ aces) h = ground (arith, denied_by_deny carries aces)

first_match_canonical :
    (carries : Ace → Bool) (aces : List Ace)
    → is_canonical aces ≡ true
    → first_match carries aces ≡ granted_by carries aces
unfolding first_match is_canonical
first_match_canonical carries [] h = refl
first_match_canonical carries (a ∷ aces) h =
    ground (arith, first_match_canonical carries aces, denied_by_deny carries aces)

granted_by-first_match :
    (carries : Ace → Bool) (aces : List Ace)
    → granted_by carries aces ≡ true
    → first_match carries aces ≡ true
unfolding first_match
granted_by-first_match carries [] h = cc
granted_by-first_match carries (a ∷ aces) h = ground (arith, granted_by-first_match carries aces)

-- On a canonical list, where denies stand before allows, `AppliesTo` is Windows' outcome.
pub applies_to_canonical :
    (sd : SecurityDescriptor) (sids : List Sid)
    → is_canonical sd.aces ≡ true
    → applies_to (some sd) sids ≡ windows_applies_to sd sids
unfolding windows_applies_to
applies_to_canonical sd sids h =
    applies_to-granted_by sd sids
    ∙ ap₂ ◌&&◌ (sym (first_match_canonical (carries_read sids) sd.aces h))
        (sym (first_match_canonical (carries_agp sids) sd.aces h))

-- On any list it fails safe: what it grants, Windows grants too.
pub applies_to_fails_safe :
    (sd : SecurityDescriptor) (sids : List Sid)
    → applies_to (some sd) sids ≡ true
    → windows_applies_to sd sids ≡ true
unfolding windows_applies_to
applies_to_fails_safe sd sids h = ground (
  arith,
  applies_to-granted_by sd sids,
  granted_by-first_match (carries_read sids) sd.aces,
  granted_by-first_match (carries_agp sids) sd.aces,
)
