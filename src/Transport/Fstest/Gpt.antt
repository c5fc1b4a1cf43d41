-- ===== src/Transport/Fstest/Gpt.antt =====
-- The file system that `GPTFS` of internal/transport/fstest/fstest.go makes of a map of files.
use mathlib.Core.Path.{subst}
use opengpm.Base.{
  List, [], ◌∷◌, ◌++◌, map, any, ◌≡◌, ◌⊎◌, sym, ap, ◌∙◌, refl, Bool, true, false, not, ◌&&◌,
  Bool-cases, Option, none, some, inl, inr, Result, ok, err, if◌then◌else◌,
}
use opengpm.Base.Sort.{Sorter}
use opengpm.Text.{Bytes, equal}
use opengpm.Text.Search.{has_prefix}
use opengpm.Fs.{
  ReadDirError, own_error, open_error, not_implemented, fs_read_dir, entries_by, own_entries,
  opened_entries, file_entries,
}
use opengpm.Fs.MapFs.{
  MapInfo, MapOpen, plain, folder, MapError, not_exist, synthesized, is_root, is_nil, lookup,
  less_info, base, direct, needed, dir_list, opened, read_map_dir, map_open, map_fs,
}
use opengpm.Fs.Walk.{join_path}
use opengpm.Fs.MapFs.Children.{once}
use opengpm.Fs.MapFs.Listing.{IsDirListing, Distinct, dir_list-IsDirListing, sort-IsDirListing}
use opengpm.Fs.MapFs.Opening.{is_nil-has_prefix}
use opengpm.Transport.Fstest.{map_file, gpt_fs}
use opengpm.Transport.Fstest.Files.{
  to_file, stored, gpt_files-map, map-Distinct, map-ArePlain, lookup-map, any-map,
}

-- What `fs.ReadDir` of a `MapFS` answers.
abbrev pub Listed : Type 0
Listed = Result (ReadDirError MapError (ReadDirError MapError MapError)) (List MapInfo)

-- What `Open` and `fs.ReadDir` of a valid name give, by the content that the map has for the name:
-- the file with this content, which is no directory; a directory and its entries, if there is no
-- content and the name is the root or some path goes on below it; and that it does not exist.
pub data Gives (files : List (Bytes × Bytes)) (name : Bytes)
    : Option Bytes → Result MapError MapOpen → Listed → Type 0 where
  file_opens :
      (content : Bytes)
      → Gives files name
          (some content)
          (ok (plain (record { name_of = base name; file = map_file content })))
          (err (own_error (not_implemented name)))
  folder_opens :
      (es es' : List MapInfo)
      → (is_root name ≡ true) ⊎ (any (λ pc. has_prefix pc.0 (name ++ b'/' ∷ [])) files ≡ true)
      → IsDirListing name files es
      → IsDirListing name files es'
      → Gives files name none
          (ok (folder (record { name_of = base name; file = synthesized }) es))
          (ok es')
  missing :
      is_root name ≡ false
      → any (λ pc. has_prefix pc.0 (name ++ b'/' ∷ [])) files ≡ false
      → Gives files name none (err (not_exist name)) (err (own_error (open_error (not_exist name))))

module _ (sorter : Sorter MapInfo) (files : List (Bytes × Bytes)) (name : Bytes)
    (distinct : Distinct files) where
  abbrev entries : List MapInfo
  entries = dir_list sorter name (map to_file files)

  abbrev as_folder : MapOpen
  as_folder = folder (record { name_of = base name; file = synthesized }) entries

  -- `MapFS.ReadDir`, on what `Open` gives.
  abbrev listed : Result MapError MapOpen → Listed
  listed r =
      own_entries {F = MapOpen} {E = MapError} (λ x. x.name_of) sorter read_map_dir
        (opened_entries {X = MapError} (λ x. x.name_of) sorter read_map_dir name r)

  abbrev GivesBoth : Option Bytes → Result MapError MapOpen → Type 0
  GivesBoth o r = Gives files name o r (listed r)

  -- Some path goes on below the name.
  abbrev goes_on : Bool
  goes_on = any (λ pc. has_prefix pc.0 (name ++ b'/' ∷ [])) files

  listing : IsDirListing name files entries
  listing =
      let l =
        dir_list-IsDirListing sorter name (map to_file files) (map-Distinct files distinct)
          (map-ArePlain files) in
      record {
        files_once = λ e single no_root.
            l.files_once e single no_root
            ∙ ap once (any-map (λ p. equal p (join_path name e)) files);
        dirs_once = λ e single no_root.
            l.dirs_once e single no_root
            ∙ rw
                (
                  any-map (λ p. equal p (join_path name e)) files,
                  any-map (λ p. has_prefix p (join_path name e ++ b'/' ∷ [])) files,
                )
                refl;
        by_name = l.by_name;
      }

  abbrev is_missing : Bool
  is_missing =
      not (is_root name)
      && (is_nil (direct name (map to_file files)) && is_nil (needed name (map to_file files)))

  folder-Gives :
      (is_root name ≡ true) ⊎ (goes_on ≡ true)
      → is_missing ≡ false
      → GivesBoth none (if is_missing then err (not_exist name) else ok as_folder)
  unfolding own_entries opened_entries file_entries read_map_dir
  folder-Gives why h =
      subst (λ b. GivesBoth none (if b then err (not_exist name) else ok as_folder)) (sym h)
        (folder_opens entries (sorter.sort less_info entries) why listing
          (sort-IsDirListing sorter name files entries listing))

  none-Gives : GivesBoth none (if is_missing then err (not_exist name) else ok as_folder)
  unfolding own_entries opened_entries file_entries read_map_dir
  none-Gives = elim (Bool-cases (is_root name)) [
    | inl root ↦ folder-Gives (inl root) (rw root refl)
    | inr other ↦
        let nothing : is_missing ≡ not goes_on = rw other (
          is_nil-has_prefix name other (map to_file files)
          ∙ ap not (any-map (λ p. has_prefix p (name ++ b'/' ∷ [])) files)) in
        elim (Bool-cases goes_on) [
          | inl on ↦ folder-Gives (inr on) (nothing ∙ ap not on)
          | inr off ↦
              subst (λ b. GivesBoth none (if b then err (not_exist name) else ok as_folder))
                (sym (nothing ∙ ap not off)) (missing other off)
        ]
  ]

  opened-Gives :
      (o : Option Bytes) → GivesBoth o (opened sorter (map to_file files) name (stored o))
  unfolding opened own_entries opened_entries file_entries read_map_dir
  opened-Gives (some content) = file_opens content
  opened-Gives none = none-Gives

  -- `GPTFS` of a map, each path of which is there once, opens a valid name as the file with the
  -- content that the map has for it, which `fs.ReadDir` refuses; else as a directory, if it is the
  -- root or some path goes on below it, and `fs.ReadDir` lists it; and else both answer that it does
  -- not exist. A directory has, by name, each of its files once and each of its directories once.
  pub gpt_fs-Gives :
      (valid : Bytes → Bool)
      → valid name ≡ true
      → Gives files name
          (lookup files name)
          ((gpt_fs valid sorter files).open_name name)
          (fs_read_dir (λ x. x.name_of) sorter read_map_dir (gpt_fs valid sorter files) name)
  unfolding gpt_fs map_fs map_open fs_read_dir entries_by
  gpt_fs-Gives valid ok_name =
      subst (GivesBoth (lookup files name))
        (sym (rw (gpt_files-map files distinct, ok_name, lookup-map files name) refl))
        (opened-Gives (lookup files name))
