-- ===== src/Transport/Fstest/Files.antt =====
-- The loop of `GPTFS` of internal/transport/fstest/fstest.go copies its map.
use opengpm.Base.{
  List, [], ◌∷◌, ◌++◌, map, any, All, All-append, ◌≡◌, ◌≢◌, refl, sym, ap, ◌∙◌, append_assoc,
  append-nil, Bool, true, false, ◌||◌, Option, none, some, if◌then◌else◌, arith,
}
use opengpm.Text.{Bytes, equal, equal_iff}
use opengpm.Fs.MapFs.{MapFile, assign, lookup}
use opengpm.Fs.MapFs.Listing.{Distinct, ArePlain}
use opengpm.Transport.Fstest.{map_file, gpt_files}

abbrev pub to_file : Bytes × Bytes → Bytes × MapFile
to_file pc = (pc.0, map_file pc.1)

-- A new key goes to the end.
assign-new :
    {A : Type 0} (path : Bytes) (x : A) (m : List (Bytes × A))
    → All (λ pf. pf.0 ≢ path) m
    → assign path x m ≡ m ++ (path, x) ∷ []
unfolding assign
assign-new path x [] h = refl
assign-new path x ((p, y) ∷ m) (other, h) = ground (arith, equal_iff p path, assign-new path x m h)

-- The keys that are to come are none of those that the map has.
abbrev AreNew : List (Bytes × MapFile) → List (Bytes × Bytes) → Type 0
AreNew m = All (λ pc. All (λ pf. pf.0 ≢ pc.0) m)

gpt_files-append :
    (files : List (Bytes × Bytes)) (m : List (Bytes × MapFile))
    → Distinct files
    → AreNew m files
    → gpt_files files m ≡ m ++ map to_file files
unfolding gpt_files
gpt_files-append [] m distinct new = sym (append-nil m)
gpt_files-append ((path, content) ∷ files) m (others, distinct) (absent, new) =
    ap (gpt_files files) (assign-new path (map_file content) m absent)
    ∙ gpt_files-append files (m ++ (path, map_file content) ∷ []) distinct
        (still_new files others new)
    ∙ append_assoc m ((path, map_file content) ∷ []) (map to_file files)
  where
    still_new :
        (fs : List (Bytes × Bytes))
        → All (λ pc. pc.0 ≢ path) fs
        → AreNew m fs
        → AreNew (m ++ (path, map_file content) ∷ []) fs
    still_new [] others new = tt
    still_new (pc ∷ fs) (other, others) (h, new) = (
      All-append (λ pf. pf.0 ≢ pc.0) m ((path, map_file content) ∷ []) h
          ((λ same. other (sym same)), tt),
      still_new fs others new,
    )

pub gpt_files-map :
    (files : List (Bytes × Bytes)) → Distinct files → gpt_files files [] ≡ map to_file files
gpt_files-map files distinct = gpt_files-append files [] distinct (none_yet files)
  where
    none_yet : (fs : List (Bytes × Bytes)) → AreNew [] fs
    none_yet [] = tt
    none_yet (pc ∷ fs) = (tt, none_yet fs)

pub map-Distinct : (files : List (Bytes × Bytes)) → Distinct files → Distinct (map to_file files)
map-Distinct [] h = tt
map-Distinct ((path, content) ∷ files) (others, h) = (go files others, map-Distinct files h)
  where
    go :
        (fs : List (Bytes × Bytes))
        → All (λ pc. pc.0 ≢ path) fs
        → All (λ pf. pf.0 ≢ path) (map to_file fs)
    go [] h = tt
    go (pc ∷ fs) (h, hs) = (h, go fs hs)

pub map-ArePlain : (files : List (Bytes × Bytes)) → ArePlain (map to_file files)
map-ArePlain [] = tt
map-ArePlain (pc ∷ files) = (refl, map-ArePlain files)

abbrev pub stored : Option Bytes → Option MapFile
stored none = none
stored (some content) = some (map_file content)

stored-if :
    (b : Bool) (content : Bytes) {x : Option MapFile} (y : Option Bytes)
    → x ≡ stored y
    → (if b then some (map_file content) else x) ≡ stored (if b then some content else y)
stored-if true content y h = refl
stored-if false content y h = h

pub lookup-map :
    (files : List (Bytes × Bytes)) (name : Bytes)
    → lookup (map to_file files) name ≡ stored (lookup files name)
unfolding lookup
lookup-map [] name = refl
lookup-map ((path, content) ∷ files) name =
    stored-if (equal path name) content (lookup files name) (lookup-map files name)

pub any-map :
    (p : Bytes → Bool) (files : List (Bytes × Bytes))
    → any (λ pf. p pf.0) (map to_file files) ≡ any (λ pc. p pc.0) files
any-map p [] = refl
any-map p (pc ∷ files) = ap (λ b. p pc.0 || b) (any-map p files)
