-- ===== src/Fs/MapFs.antt =====
-- `MapFS` of Go's testing/fstest: a file system over a map from paths to files. A Go map is a list
-- of its keys and values, each key once; `fs.ValidPath` is the parameter `valid`. Of the bits of a
-- mode only that of a directory is kept, so there are no symbolic links.
pub mod Children
pub mod Paths
pub mod Listing
pub mod Opening
use opengpm.Base.{
  ℕ, List, [], ◌∷◌, ◌++◌, map, any, drop, suc, Bool, true, false, not, ◌&&◌, Option, none, some,
  if◌then◌else◌, Result, ok, err,
}
use opengpm.Base.Int.{is_neg}
use opengpm.Base.Sort.{Sorter}
use opengpm.Text.{Bytes, codes, equal}
use opengpm.Text.Search.{index_byte, last_index_byte, cut_before}
use opengpm.Text.Space.{strip_prefix}
use opengpm.Transport.Discover.{compare_text}
use opengpm.Fs.{FileSystem, ReadDirError, fs_read_dir}

-- `MapFile`: its data, and whether its mode has the bit of a directory.
pub record MapFile : Type 0 where
  pub data_of : Bytes
  pub is_dir : Bool

-- `m[name]`
unfoldable pub lookup : {A : Type 0} → List (Bytes × A) → Bytes → Option A
lookup [] name = none
lookup ((path, x) ∷ m) name = let rest = lookup m name in if equal path name then some x else rest

-- `m[name] = x`
unfoldable pub assign : {A : Type 0} → Bytes → A → List (Bytes × A) → List (Bytes × A)
assign name x [] = (name, x) ∷ []
assign name x ((path, y) ∷ m) =
    let rest = assign name x m in if equal path name then (path, x) ∷ m else (path, y) ∷ rest

-- `mapFileInfo`
pub record MapInfo : Type 0 where
  pub name_of : Bytes
  pub file : MapFile

-- `openMapFile` and `mapDir`
pub data MapOpen : Type 0 where
  plain : MapInfo → MapOpen
  folder : MapInfo → List MapInfo → MapOpen

pub data MapError : Type 0 where
  not_exist : Bytes → MapError

abbrev pub synthesized : MapFile
synthesized = record { data_of = []; is_dir = true }

abbrev pub is_root : Bytes → Bool
is_root name = equal name (codes ".")

-- What a path has behind the directory `name`.
unfoldable pub below : Bytes → Bytes → Option Bytes
below name path =
    if is_root name
    then (if is_root path then none else some path)
    else strip_prefix (name ++ b'/' ∷ []) path

-- A path below a directory is of one of its files, or needs one of its directories.
pub data Child : Type 0 where
  here deeper : Bytes → Child

unfoldable pub child_of : Bytes → Child
child_of rest = elim (index_byte rest b'/') [
  | none ↦ here rest
  | some i ↦ deeper (cut_before b'/' rest)
]

unfoldable pub child : Bytes → Bytes → Option Child
unfolding below child_of
child name path = elim (below name path) [ none ↦ none | some rest ↦ some (child_of rest) ]

abbrev pub with_info : MapFile → Option Child → List MapInfo → List MapInfo
with_info f (some (here e)) list = record { name_of = e; file = f } ∷ list
with_info f (some (deeper e)) list = list
with_info f none list = list

-- `list`, after the loop over the map.
unfoldable pub direct : Bytes → List (Bytes × MapFile) → List MapInfo
unfolding child
direct name [] = []
direct name ((path, f) ∷ m) = with_info f (child name path) (direct name m)

-- `need[e] = true`
abbrev pub add : Bytes → List Bytes → List Bytes
add e need = if any (equal e) need then need else e ∷ need

abbrev pub with_need : Option Child → List Bytes → List Bytes
with_need (some (deeper e)) need = add e need
with_need (some (here e)) need = need
with_need none need = need

-- `need`, after the loop over the map.
unfoldable pub needed : Bytes → List (Bytes × MapFile) → List Bytes
unfolding child
needed name [] = []
needed name ((path, f) ∷ m) = with_need (child name path) (needed name m)

-- `delete(need, e)`
unfoldable pub delete : Bytes → List Bytes → List Bytes
delete e [] = []
delete e (d ∷ need) = let rest = delete e need in if equal e d then rest else d ∷ rest

unfoldable pub delete_all : List MapInfo → List Bytes → List Bytes
unfolding delete
delete_all [] need = need
delete_all (x ∷ list) need = delete_all list (delete x.name_of need)

abbrev pub implied : Bytes → MapInfo
implied e = record { name_of = e; file = synthesized }

-- `name[strings.LastIndex(name, "/")+1:]`
unfoldable pub base : Bytes → Bytes
base name = elim (last_index_byte name b'/') [ none ↦ name | some i ↦ drop (suc i) name ]

abbrev pub is_nil : {A : Type 0} → List A → Bool
is_nil [] = true
is_nil (x ∷ xs) = false

abbrev pub less_info : MapInfo → MapInfo → Bool
less_info a b = is_neg (compare_text a.name_of b.name_of)

-- A `mapDir` is an `fs.ReadDirFile`, an `openMapFile` is none.
unfoldable pub read_map_dir : MapOpen → Option (Result MapError (List MapInfo))
read_map_dir (plain x) = none
read_map_dir (folder x es) = some (ok es)

module _ (sorter : Sorter MapInfo) where
  unfoldable pub dir_list : Bytes → List (Bytes × MapFile) → List MapInfo
  unfolding direct needed delete_all
  dir_list name m =
      let list = direct name m in
      sorter.sort less_info (list ++ map implied (delete_all list (needed name m)))

  unfoldable pub opened : List (Bytes × MapFile) → Bytes → Option MapFile → Result MapError MapOpen
  unfolding dir_list base
  opened m name (some f) =
      if not f.is_dir
      then ok (plain (record { name_of = base name; file = f }))
      else ok (folder (record { name_of = base name; file = f }) (dir_list name m))
  opened m name none =
      if not (is_root name) && (is_nil (direct name m) && is_nil (needed name m))
      then err (not_exist name)
      else ok (folder (record { name_of = base name; file = synthesized }) (dir_list name m))

module _ (valid : Bytes → Bool) (sorter : Sorter MapInfo) where
  -- `MapFS.Open`
  unfoldable pub map_open : List (Bytes × MapFile) → Bytes → Result MapError MapOpen
  unfolding opened lookup
  map_open m name =
      if not (valid name) then err (not_exist name) else opened sorter m name (lookup m name)

  -- A `MapFS` reads its directories by `fs.ReadDir` of its `Open`.
  unfoldable pub map_fs :
      List (Bytes × MapFile) → FileSystem MapOpen MapInfo MapError (ReadDirError MapError MapError)
  unfolding map_open read_map_dir
  map_fs m = record {
    open_name = map_open m;
    own_read_dir = some (
        fs_read_dir {X = MapError} (λ x. x.name_of) sorter read_map_dir
          (record { open_name = map_open m; own_read_dir = none }));
  }
