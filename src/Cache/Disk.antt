-- ===== src/Cache/Disk.antt =====
-- The files that the cache keeps, and the calls of `tokio::fs` and `object_store` that it makes.
-- Which calls fail is a parameter.
use pulld.Base.{ℕ, Bool, true, false, Option, none, some, List, [], ◌∷◌, take, if◌then◌else◌}
use pulld.Text.{Text, text_eq}

abbrev pub Bytes : Type 0
Bytes = List ℕ

pub record File : Type 0 where
  pub bytes : Bytes
  pub modified : ℕ

abbrev pub Files : Type 0
Files = List (Text × File)

-- The calls that fail on a path. A `write` that fails may have written some bytes.
pub record Disk : Type 0 where
  pub create_dir_fails : Text → Bool
  pub write_fails : Text → Option ℕ
  pub rename_fails : Text → Bool
  pub read_fails : Text → Bool
  pub remove_fails : Text → Bool
  pub sync_fails : Text → Bool

unfoldable pub find_file : Files → Text → Option File
find_file [] path = none
find_file ((p, f) ∷ rest) path = if text_eq p path then some f else find_file rest path

unfoldable pub put_file : Files → Text → File → Files
put_file [] path file = (path, file) ∷ []
put_file ((p, f) ∷ rest) path file =
    if text_eq p path then (p, file) ∷ rest else (p, f) ∷ put_file rest path file

unfoldable pub delete_file : Files → Text → Files
delete_file [] path = []
delete_file ((p, f) ∷ rest) path =
    let rest' = delete_file rest path in if text_eq p path then rest' else (p, f) ∷ rest'

-- `fs::write`: the files after it, and whether it succeeds.
unfoldable pub write_file : Disk → ℕ → Files → Text → Bytes → Files × Bool
unfolding put_file
write_file d now files path content = elim (d.write_fails path) [
  | none ↦ (put_file files path (record { bytes = content; modified = now }), true)
  | some n ↦ (put_file files path (record { bytes = take n content; modified = now }), false)
]

-- `fs::rename`, which keeps the time of modification.
unfoldable pub rename_file : Disk → Files → Text → Text → Option Files
unfolding find_file put_file delete_file
rename_file d files source target = elim (find_file files source) [
  | none ↦ none
  | some file ↦
      if d.rename_fails target then none else some (put_file (delete_file files source) target file)
]

-- `fs::remove_file`.
unfoldable pub remove_file : Disk → Files → Text → Option Files
unfolding find_file delete_file
remove_file d files path = elim (find_file files path) [
  | none ↦ none
  | some file ↦ if d.remove_fails path then none else some (delete_file files path)
]

-- `fs::read`.
unfoldable pub read_file : Disk → Files → Text → Option Bytes
unfolding find_file
read_file d files path = elim (find_file files path) [
  | none ↦ none
  | some file ↦ if d.read_fails path then none else some file.bytes
]

-- A client of an object store: `head` gives an object's size.
pub record ObjectStore : Type 1 where
  pub Objects : Type 0
  pub head : Objects → Text → Option ℕ
  pub get : Objects → Text → Option Bytes
  pub get_range : Objects → Text → ℕ → ℕ → Option Bytes
  pub put : Objects → Text → Bytes → Option Objects
  pub put_multipart : Objects → Text → List Bytes → Option Objects
  pub delete : Objects → Text → Option Objects

-- The state of the cache: the files of the disk, and the objects of the store.
pub record Cached (S : ObjectStore) : Type 0 where
  pub files : Files
  pub objects : S.Objects
