-- ===== src/Transport/Discover.antt =====
-- internal/transport/discover.go: the domain controllers of an SRV answer, in selection order.
-- The resolver is the caller's (an interface in the source) and a parameter here, as is
-- `slices.SortFunc`: it keeps no order among equals, so any sort that meets `Sorter` will do.
pub mod Compare
pub mod Select
use opengpm.Base.{
  ℕ, ◌+◌, ◌≤◌, List, [], ◌∷◌, ◌++◌, map, Bool, true, false, not, ◌&&◌, ◌==◌, ◌≡◌, ltb, leb,
  if◌then◌else◌, Result, ok, err,
}
use opengpm.Base.Int.{ℤ, pos, negsuc, sub_ℕ, is_neg}
use opengpm.Base.Sort.{Sorter}
use opengpm.Text.{Bytes, codes, equal}

-- `DC`; the three numbers are uint16.
pub record Dc : Type 0 where
  pub host : Bytes
  pub port : ℕ
  pub priority : ℕ
  pub weight : ℕ

-- `net.SRV`
pub record Srv : Type 0 where
  pub target : Bytes
  pub port : ℕ
  pub priority : ℕ
  pub weight : ℕ

-- `ErrNoDCs`, and a wrapped resolver error.
pub data DiscoverError (E : Type 0) : Type 0 where
  no_dcs : DiscoverError E
  lookup_failed : Bytes → E → DiscoverError E

-- `strings.TrimSuffix(s, ".")`
unfoldable pub trim_dot : Bytes → Bytes
trim_dot [] = []
trim_dot (c ∷ []) = if c == b'.' then [] else c ∷ []
trim_dot (c ∷ d ∷ s) = c ∷ trim_dot (d ∷ s)

-- `strings.Compare`: bytewise, -1, 0 or 1.
unfoldable pub compare_text : Bytes → Bytes → ℤ
compare_text [] [] = pos 0
compare_text [] (y ∷ t) = negsuc 0
compare_text (x ∷ s) [] = pos 1
compare_text (x ∷ s) (y ∷ t) =
    if ltb x y then negsuc 0 else if ltb y x then pos 1 else compare_text s t

-- The function that `SortFunc` is given.
unfoldable pub compare_dc : Dc → Dc → ℤ
unfolding compare_text
compare_dc a b =
    if not (a.priority == b.priority)
    then sub_ℕ a.priority b.priority
    else if not (a.weight == b.weight)
    then sub_ℕ b.weight a.weight
    else compare_text a.host b.host

-- `SortFunc` puts `a` before `b` where the function is negative.
abbrev pub less_dc : Dc → Dc → Bool
less_dc a b = is_neg (compare_dc a b)

unfoldable pub dc_of : Srv → Dc
unfolding trim_dot
dc_of a = record {
  host = trim_dot a.target;
  port = a.port;
  priority = a.priority;
  weight = a.weight;
}

-- The name that is looked up: `_ldap._tcp.dc._msdcs.<domain>`.
pub record Query : Type 0 where
  pub service : Bytes
  pub proto : Bytes
  pub name : Bytes

abbrev pub query : Bytes → Query
query domain = record {
  service = codes "ldap";
  proto = codes "tcp";
  name = codes "dc._msdcs." ++ domain;
}

module _ {E : Type 0} (lookup : Query → Result E (List Srv)) (sorter : Sorter Dc) where
  -- Behind the error test: an empty answer is an error of its own.
  select : List Dc → Result (DiscoverError E) (List Dc)
  select [] = err no_dcs
  select (dc ∷ dcs) = ok (sorter.sort less_dc (dc ∷ dcs))

  from_answer : Bytes → Result E (List Srv) → Result (DiscoverError E) (List Dc)
  unfolding select
  from_answer domain (err e) = err (lookup_failed domain e)
  from_answer domain (ok answers) = select (map dc_of answers)

  -- `DiscoverDCs`
  unfoldable pub discover_dcs : Bytes → Result (DiscoverError E) (List Dc)
  unfolding from_answer
  discover_dcs domain = from_answer domain (lookup (query domain))
