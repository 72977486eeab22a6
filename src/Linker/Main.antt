-- ===== src/Linker/Main.antt =====
-- `_main` of core/lnk.cpp: the run of the linker up to the call of the program, over the parts that
-- load, bind and initialise.
pub mod Graph
pub mod Fits
pub mod Loads
pub mod Phase
pub mod Ordered
mod Runs
use lib_system_and_linker.Prelude.{
  ℕ, zero, suc, ◌+◌, ◌==◌, leb, if◌then◌else◌, Bool, true, false, Option, none, some, List, [], ◌∷◌,
  ◌++◌, length,
}
use lib_system_and_linker.Linker.Stream.{Result, done, halts, spins, strays, ◌>>=◌}
use lib_system_and_linker.Linker.Load.{
  Machine, Loaded, Dependency, Loader, load_library, load_dylibs,
}
use lib_system_and_linker.Linker.Chain.{initialize_chain}

-- What the linker does behind loading, in its order: `doBindSymbols` and `doInitialize` of images, the
-- parts of the embedded runtime and the tests, which are taken to return, and the call of the entry point
-- with the arguments.
pub data Step : Type 0 where
  main_runtime : Step
  bind : ℕ → Step
  auxiliary_runtime : Step
  initialize : ℕ → Step
  test : Step
  call_main : List ℕ → Step

-- The commands of the linker's own image and of the main executable that load libraries, the paths of
-- `loadAuxiliarySystemLibraries`, the path of `cas::init`, which an open build has not, and `argv`.
-- What the `init` of these two images comes to behind their libraries is a parameter: it may halt.
pub record Program : Type 0 where
  pub linker_dylibs : List (ℕ × Bool)
  pub main_dylibs : List (ℕ × Bool)
  pub aux_paths : List ℕ
  pub cas_path : Option ℕ
  pub argv : List ℕ
  pub linker_init : Result (Unit {0})
  pub main_init : Result (Unit {0})

-- `gArgv` has 1024 places, and NULL stands behind the arguments.
unfoldable pub copy_argv : List ℕ → Result (List ℕ)
copy_argv argv = if leb 1024 (length argv) then strays else done (argv ++ (0 ∷ []))

abbrev pub images : List Loaded → List ℕ
images [] = []
images (l ∷ ls) = l.image ∷ images ls

-- `fDependencies` of an image.
unfoldable pub deps_of : List Dependency → ℕ → List ℕ
deps_of [] im = []
deps_of (d ∷ ds) im = if d.image == im then d.needs ∷ deps_of ds im else deps_of ds im

-- The loop of `bindChain`.
unfoldable pub bind_images : (ℕ → Result (Unit {0})) → List ℕ → Result (List Step)
bind_images bind_symbols [] = done []
bind_images bind_symbols (im ∷ ims) =
    bind_symbols im >>= λ u. bind_images bind_symbols ims >>= λ steps. done (bind im ∷ steps)

-- The images that have run `doInitialize`, the latest first, in front of later steps.
unfoldable pub initialized : List ℕ → List Step → List Step
initialized [] later = later
initialized (im ∷ called) later = initialized called (initialize im ∷ later)

-- `doInitialize` of the images that have run it, the latest first.
unfoldable pub run_initializers : (ℕ → Result (Unit {0})) → List ℕ → Result (Unit {0})
run_initializers do_initialize [] = done tt
run_initializers do_initialize (im ∷ called) =
    run_initializers do_initialize called >>= λ ran. do_initialize im

-- The linker's object is the number 0. Its image has no file path, and while its commands are read there
-- is no chain.
abbrev pub no_images : Loader
no_images = record { chain = []; image_count = 0; next_object = 1; dependencies = []; rebased = [] }

abbrev pub with_dylinker : Loader → Loader
with_dylinker s = record s {
  chain = record { image = 0; orig_path = none } ∷ [];
  image_count = s.image_count + 1;
}

module _ (m : Machine) (depth : ℕ) where
  -- `loadLibrary` for each path.
  unfoldable pub load_libraries : List ℕ → Loader → Result Loader
  load_libraries [] s = done s
  load_libraries (path ∷ paths) s = load_library m depth path s >>= λ r. load_libraries paths r.1

  abbrev pub cas_init : Option ℕ → Loader → Result Loader
  cas_init none s = done s
  cas_init (some path) s = load_library m depth path s >>= λ r. done r.1

  -- Up to `cas::init`: the main executable's object and the loader.
  unfoldable pub load_phase : Program → Result (ℕ × Loader)
  unfolding load_libraries load_dylibs
  load_phase p = load_dylibs (load_library m depth) 0 p.linker_dylibs no_images >>= λ s.
      p.linker_init >>= λ linker_ready. load_libraries p.aux_paths (with_dylinker s) >>= λ t.
      load_dylibs (load_library m depth) t.next_object p.main_dylibs
        (record t { next_object = t.next_object + 1 })
      >>= λ u. p.main_init >>= λ main_ready. cas_init p.cas_path u >>= λ v. done (t.next_object, v)

  -- `garbage` is what `runCircularInitializer` holds, and `passes` are the rounds that `initializeChain` gets.
  -- `bind_symbols` and `do_initialize` are what `doBindSymbols` and `doInitialize` of an image come to.
  unfoldable pub main :
      ℕ
      → Bool
      → (ℕ → Result (Unit {0}))
      → (ℕ → Result (Unit {0}))
      → Program
      → Result (List Step × Loader)
  unfolding copy_argv load_phase bind_images initialized deps_of run_initializers
  main passes garbage bind_symbols do_initialize p = copy_argv p.argv >>= λ argv.
      load_phase p >>= λ (main_image, s). bind_images bind_symbols (images s.chain) >>= λ bound.
      bind_symbols main_image >>= λ u.
      elim (initialize_chain (deps_of s.dependencies) (images s.chain) passes s.image_count garbage
        []) [
          | none ↦ spins
          | some called ↦ run_initializers do_initialize called >>= λ ran.
              do_initialize main_image >>= λ ready. done (
                main_runtime
                    ∷ (bound
                        ++ (bind main_image
                            ∷ (auxiliary_runtime
                                ∷ initialized called
                                    (initialize main_image ∷ (test ∷ (call_main argv ∷ [])))))),
                s,
              )
        ]
