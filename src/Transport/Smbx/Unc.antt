-- ===== src/Transport/Smbx/Unc.antt =====
-- smbx.go: `ParseUNC`, `cutFunc` and `dialTarget`. A text is the code points that `[]rune(uncPath)`
-- yields; nothing but an error's message reads the path in another form.
pub mod Spec
pub mod Paths
use opengpm.Base.{
  ℕ, suc, List, [], ◌∷◌, ◌++◌, Bool, true, false, not, ◌&&◌, ◌||◌, ◌==◌, Option, none, some,
  if◌then◌else◌, Result, ok, err, take, drop,
}
use opengpm.Text.{Bytes, codes}
use opengpm.Text.Case.{to_upper}
use opengpm.Text.Fields.{index_func, fields_func, join, join_host_port}

-- `UNC`
pub record Unc : Type 0 where
  pub domain : Bytes
  pub share : Bytes
  pub path : Bytes

-- `ErrNotUNC`, `ErrNoDomain` and `ErrNoShare`, around the text that was parsed.
pub data UncError : Type 0 where
  not_unc no_domain no_share : Bytes → UncError

-- `isSep`
abbrev pub is_sep : ℕ → Bool
is_sep r = r == b'\\' || r == b'/'

-- `cutFunc`
unfoldable pub cut_func : Bytes → (ℕ → Bool) → Bytes × Bytes × Bool
cut_func s sep = elim (index_func sep s) [
  | some i ↦ (take i s, drop (suc i) s, true)
  | none ↦ (s, [], false)
]

pub is_empty : Bytes → Bool
is_empty [] = true
is_empty (c ∷ s) = false

-- The path within the share: the components, joined; `.` for the share root.
unfoldable pub path_of : Bytes → Bytes
unfolding is_empty
path_of tail =
    let path = join (codes "/") (fields_func is_sep tail) in
    if is_empty path then codes "." else path

module _ (wide : Bytes → Bytes) where
  -- Behind the two leading separators.
  unfoldable pub parse_rest : Bytes → Bytes → Result UncError Unc
  unfolding is_empty
  parse_rest whole rest =
      let (domain, after, has_share) = cut_func rest is_sep in
      let (share, tail, found) = cut_func after is_sep in
      if is_empty domain
      then err (no_domain whole)
      else if not has_share
      then err (no_share whole)
      else if is_empty share
      then err (no_share whole)
      else ok (record { domain = domain; share = to_upper wide share; path = path_of tail })

  -- `ParseUNC`
  unfoldable pub parse_unc : Bytes → Result UncError Unc
  unfolding parse_rest
  parse_unc [] = err (not_unc [])
  parse_unc (a ∷ []) = err (not_unc (a ∷ []))
  parse_unc (a ∷ b ∷ rest) =
      if not (is_sep a) || not (is_sep b)
      then err (not_unc (a ∷ b ∷ rest))
      else parse_rest (a ∷ b ∷ rest) rest

-- `dialTarget`: the address and the service principal, both of the pinned controller.
unfoldable pub dial_target : Bytes → Unc → Bytes × Bytes
dial_target dc u = (join_host_port dc (codes "445"), codes "cifs/" ++ dc)
