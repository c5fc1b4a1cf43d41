-- ===== src/Transport/Fstest.antt =====
-- internal/transport/fstest/fstest.go: `GPTFS` and `FaultFS`.
pub mod Faults
pub mod Prune
pub mod Walks
pub mod Files
pub mod Gpt
use opengpm.Base.{List, [], ◌∷◌, Bool, false, Option, none, some, if◌then◌else◌, Result, ok, err}
use opengpm.Text.{Bytes, equal}
use opengpm.Fs.{FileSystem, ReadDirError}
use opengpm.Fs.MapFs.{MapFile, MapInfo, MapOpen, MapError, assign, map_fs}
use opengpm.Base.Sort.{Sorter}

-- `&stdfstest.MapFile{Data: data}`
abbrev pub map_file : Bytes → MapFile
map_file content = record { data_of = content; is_dir = false }

-- The loop of `GPTFS` over its map, whose entries come in any order.
unfoldable pub gpt_files : List (Bytes × Bytes) → List (Bytes × MapFile) → List (Bytes × MapFile)
unfolding assign
gpt_files [] m = m
gpt_files ((path, content) ∷ files) m = gpt_files files (assign path (map_file content) m)

-- `GPTFS`
unfoldable pub gpt_fs :
    (Bytes → Bool)
    → Sorter MapInfo
    → List (Bytes × Bytes)
    → FileSystem MapOpen MapInfo MapError (ReadDirError MapError MapError)
unfolding gpt_files map_fs
gpt_fs valid sorter files = map_fs valid sorter (gpt_files files [])

-- `f.faults[name]`
unfoldable pub fault_at : {E : Type 0} → List (Bytes × E) → Bytes → Option E
fault_at [] name = none
fault_at ((path, e) ∷ faults) name =
    let rest = fault_at faults name in if equal path name then some e else rest

-- `faultFS.Open`, on the fault of the name and what `inner` gives.
unfoldable pub open_unless : {F E : Type 0} → Option E → Result E F → Result E F
open_unless (some e) inner = err e
open_unless none inner = inner

-- `FaultFS`: a `faultFS` has `Open` and no other method.
unfoldable pub fault_fs :
    {F D E X : Type 0} → FileSystem F D E X → List (Bytes × E) → FileSystem F D E X
fault_fs inner faults = record {
  open_name = λ name. open_unless (fault_at faults name) (inner.open_name name);
  own_read_dir = none;
}
