-- ===== src/Linker/Load.antt =====
-- `loadLibraryEx` of core/lnk.cpp, and the libraries that `parseLoadCommands` of core/lnk_macho.cpp loads
-- for a new image.
pub mod Counts
pub mod Once
mod Runs
use lib_system_and_linker.Prelude.{
  ℕ, zero, suc, ◌+◌, ◌%◌, ◌^◌, ◌==◌, ◌||◌, if◌then◌else◌, Bool, true, false, Option, none, some,
  List, [], ◌∷◌, ◌≡◌,
}
use lib_system_and_linker.Linker.Stream.{Result, done, halts, spins, strays, ◌>>=◌}

-- The three prefixes that are tried.
pub data Prefix : Type 0 where
  plain : Prefix
  system : Prefix
  usr_lib : Prefix

-- A path is a number: `strcmp` gives 0 for equal ones. `opens` is the file system, with the file behind
-- a prefix and a path; `dylibs` are the paths of a file's LC_LOAD_DYLIB, LC_LOAD_WEAK_DYLIB,
-- LC_REEXPORT_DYLIB and LC_LOAD_UPWARD_DYLIB commands in their order, each with whether it is
-- LC_REEXPORT_DYLIB, up to the command at which `init` halts where one does; `dylinker` is `sDylinker`.
-- What a file's `instantiateFromFile` comes to, its `init` behind those libraries, and the `doRebase` of an
-- image of it are parameters here: each may halt the linker.
pub record Machine : Type 0 where
  pub libsystem_path : ℕ
  pub libgcc_path : ℕ
  pub opens : Prefix → ℕ → Option ℕ
  pub dylibs : ℕ → List (ℕ × Bool)
  pub dylinker : Option ℕ
  pub instantiate : ℕ → Result (Unit {0})
  pub init : ℕ → Result (Unit {0})
  pub rebase : ℕ → ℕ → Result (Unit {0})

-- The linker does not halt over a file.
abbrev pub Works : Machine → ℕ → Type 0
Works m file =
    (m.instantiate file ≡ done tt)
    × (m.init file ≡ done tt)
    × ((im : ℕ) → m.rebase file im ≡ done tt)

-- An image of the chain with its `fOrigFilePath`.
pub record Loaded : Type 0 where
  pub image : ℕ
  pub orig_path : Option ℕ

-- An entry of an image's `fDependencies`, and whether `fReExports` has it too.
pub record Dependency : Type 0 where
  pub image : ℕ
  pub needs : ℕ
  pub re_exported : Bool

-- The chain from `sFirstImage` on, `sImageCount`, the number of the next new object, and the entries of
-- all images and the images that have run `doRebase`, the latest first.
pub record Loader : Type 0 where
  pub chain : List Loaded
  pub image_count : ℕ
  pub next_object : ℕ
  pub dependencies : List Dependency
  pub rebased : List ℕ

-- What is returned, and `*already_loaded`: `none` for NULL and for what is not set.
pub record Loading : Type 0 where
  pub library : Option ℕ
  pub already_loaded : Option Bool

abbrev pub has_path : ℕ → Loaded → Bool
has_path path l = elim l.orig_path [ none ↦ false | some p ↦ path == p ]

unfoldable pub find_loaded : ℕ → List Loaded → Option ℕ
find_loaded path [] = none
find_loaded path (l ∷ ls) = if has_path path l then some l.image else find_loaded path ls

abbrev pub first_image : List Loaded → Option ℕ
first_image [] = none
first_image (l ∷ ls) = some l.image

abbrev pub or_else : Option ℕ → Option ℕ → Option ℕ
or_else none o = o
or_else (some f) o = some f

unfoldable pub open_library : Machine → ℕ → Option ℕ
open_library m path =
    or_else (m.opens plain path) (or_else (m.opens system path) (m.opens usr_lib path))

-- The commands of the image `im` that load libraries. Its table is taken to be large enough.
unfoldable pub load_dylibs :
    (ℕ → Loader → Result (Loading × Loader)) → ℕ → List (ℕ × Bool) → Loader → Result Loader
load_dylibs load im [] s = done s
load_dylibs load im ((path, re_exported) ∷ ds) s = load path s >>= λ r. elim r.0.library [
  | none ↦ halts
  | some dep ↦ load_dylibs load im ds (record r.1 {
    dependencies = record { image = im; needs = dep; re_exported = re_exported } ∷ r.1.dependencies;
  })
]

-- The new image stands behind the first one.
abbrev pub insert_behind : Loaded → Loaded → List Loaded → Loader → Loader
insert_behind l first rest s = record s {
  chain = first ∷ (l ∷ rest);
  image_count = (s.image_count + 1) % 2 ^ 32;
  next_object = s.next_object + 1;
}

module _ (m : Machine) where
  -- Loads may nest as deep as a parameter says.
  unfoldable pub load_library : ℕ → ℕ → Loader → Result (Loading × Loader)
  unfolding find_loaded open_library load_dylibs
  load_library zero path s = spins
  load_library (suc depth) path s = elim (path == m.libsystem_path || path == m.libgcc_path) [
    | true ↦ done (record { library = first_image s.chain; already_loaded = none }, s)
    | false ↦ elim (find_loaded path s.chain) [
      | some im ↦ done (record { library = some im; already_loaded = some true }, s)
      | none ↦ elim (open_library m path) [
        | none ↦ done (record { library = m.dylinker; already_loaded = some false }, s)
        | some file ↦ m.instantiate file >>= λ made. elim s.chain [
          | [] ↦ strays
          | first ∷ rest ↦
              load_dylibs (load_library depth) s.next_object (m.dylibs file) (
                insert_behind (record { image = s.next_object; orig_path = some path }) first rest
                  s)
              >>= λ t. m.init file >>= λ initialized. m.rebase file s.next_object >>= λ moved.
                  done (
                    record { library = some s.next_object; already_loaded = some false },
                    record t { rebased = s.next_object ∷ t.rebased },
                  )
        ]
      ]
    ]
  ]
