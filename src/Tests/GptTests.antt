-- ===== src/Tests/GptTests.antt =====
-- The tree of the tests of internal/transport/fstest, by itself and below `FaultFS`.
use opengpm.Base.{
  ℕ, List, [], ◌∷◌, map, ◌≡◌, ◌≢◌, refl, Bool, true, false, none, some, Result, ok, err,
}
use opengpm.Base.Sort.Insertion.{insertion_sorter, insertion_sort}
use opengpm.Text.{Bytes, codes, equal, equal_iff}
use opengpm.Text.Search.{index_byte, last_index_byte, cut_before}
use opengpm.Text.Space.{strip_prefix}
use opengpm.Transport.Discover.{compare_text}
use opengpm.Fs.{ReadDirError, fs_read_dir}
use opengpm.Fs.Walk.{Visit, Verdict, go_on, skip_dir, join_path, walk}
use opengpm.Fs.MapFs.{
  MapInfo, MapOpen, plain, folder, MapError, not_exist, synthesized, lookup, map_open, read_map_dir,
}
use opengpm.Fs.MapFs.Listing.{Distinct}
use opengpm.Transport.Fstest.{map_file, gpt_fs, fault_at, open_unless, fault_fs}
use opengpm.Transport.Fstest.Gpt.{Gives, gpt_fs-Gives}

abbrev gpt_tree : List (Bytes × Bytes)
gpt_tree =
    (codes "GPT.INI", codes "Version=65539")
    ∷ (codes "Machine/Registry.pol", codes "PReg")
    ∷ (codes "User/Preferences/Drives/Drives.xml", codes "<Drives/>")
    ∷ []

differ : {s t : Bytes} → equal s t ≡ false → s ≢ t
differ {s} {t} h same = absurd (cc (h, (equal_iff s t).1 same))

gpt_tree-Distinct : Distinct gpt_tree
unfolding equal
gpt_tree-Distinct = ((differ refl, (differ refl, tt)), ((differ refl, tt), (tt, tt)))

abbrev any_name : Bytes → Bool
any_name name = true

gpt_fs-Gives_example :
    Gives gpt_tree
      (codes "User")
      (lookup gpt_tree (codes "User"))
      ((gpt_fs any_name (insertion_sorter MapInfo) gpt_tree).open_name (codes "User"))
      (fs_read_dir
        (λ x. x.name_of)
        (insertion_sorter MapInfo)
        read_map_dir
        (gpt_fs any_name (insertion_sorter MapInfo) gpt_tree)
        (codes "User"))
gpt_fs-Gives_example =
    gpt_fs-Gives (insertion_sorter MapInfo) gpt_tree (codes "User") gpt_tree-Distinct any_name refl

implied_dir : Bytes → MapInfo
implied_dir e = record { name_of = e; file = synthesized }

root_opened :
    (gpt_fs any_name (insertion_sorter MapInfo) gpt_tree).open_name (codes ".")
    ≡ ok (
        folder
          (record { name_of = codes "."; file = synthesized })
          (record { name_of = codes "GPT.INI"; file = map_file (codes "Version=65539") }
            ∷ implied_dir (codes "Machine")
            ∷ implied_dir (codes "User")
            ∷ []))
unfolding gpt_fs equal insertion_sort compare_text index_byte last_index_byte cut_before
    strip_prefix implied_dir
root_opened = refl

script_missing :
    (gpt_fs any_name (insertion_sorter MapInfo) gpt_tree).open_name (codes "Machine/Scripts")
    ≡ err (not_exist (codes "Machine/Scripts"))
unfolding gpt_fs equal insertion_sort compare_text index_byte last_index_byte cut_before
    strip_prefix
script_missing = refl

-- Access to one subtree is denied.
abbrev denied_tree : List (Bytes × MapError)
denied_tree = (codes "User/Preferences", not_exist (codes "denied")) ∷ []

abbrev skip_failed :
    Visit MapInfo (ReadDirError MapError (ReadDirError MapError MapError)) → Verdict ℕ
skip_failed v = elim v.problem [ some y ↦ skip_dir | none ↦ go_on ]

abbrev map_stat : MapOpen → Result MapError MapInfo
map_stat (plain x) = ok x
map_stat (folder x es) = ok x

-- The walk of `TestFaultFSFaultedDirectory`.
denied_walked :
    map
      (λ v. v.path)
      (walk
        (λ x. x.name_of)
        (λ x. x.file.is_dir)
        (insertion_sorter MapInfo)
        read_map_dir
        skip_failed
        (fault_fs (gpt_fs any_name (insertion_sorter MapInfo) gpt_tree) denied_tree)
        map_stat
        9
        (codes ".")).calls
    ≡ codes "."
      ∷ codes "GPT.INI"
      ∷ codes "Machine"
      ∷ codes "Machine/Registry.pol"
      ∷ codes "User"
      ∷ codes "User/Preferences"
      ∷ codes "User/Preferences"
      ∷ []
unfolding walk fs_read_dir fault_fs fault_at open_unless gpt_fs map_open equal insertion_sort
    compare_text index_byte last_index_byte cut_before strip_prefix join_path read_map_dir
denied_walked = refl
