-- ===== src/Linker/Main/Ordered.antt =====
-- `_main` of core/lnk.cpp reaches the call of the program, with everything loaded, bound and initialised
-- in its order.
use lib_system_and_linker.Prelude.{
  ℕ, suc, ◌^◌, ◌≤◌, ◌<◌, ◌≡◌, refl, ◌==◌, leb, Bool, true, false, Bool-cases, inl, inr, Option,
  none, some, List, [], ◌∷◌, ◌++◌, length, arith,
}
use lib_system_and_linker.Linker.Stream.{Result, done}
use lib_system_and_linker.Linker.Chain.{contains, dependencies_initialized}
use lib_system_and_linker.Linker.Chain.Steps.{pending, IsOrdered, all-intro}
use lib_system_and_linker.Linker.Chain.Acyclic.{initializes_in_order}
use lib_system_and_linker.Linker.Load.{Machine, Works, Loaded, Loader, open_library}
use lib_system_and_linker.Linker.Load.Counts.{copies, unloaded}
use lib_system_and_linker.Linker.Load.Once.{Sound}
use lib_system_and_linker.Linker.Main.{
  Step, main_runtime, bind, auxiliary_runtime, test, call_main, Program, copy_argv, images, deps_of,
  bind_images, run_initializers, initialized, no_images, with_dylinker, main,
}
use lib_system_and_linker.Linker.Main.Graph.{path_rank, image_rank, dylinker, needs-Lowers}
use lib_system_and_linker.Linker.Main.Fits.{AllBelow, alone-Fits}
use lib_system_and_linker.Linker.Main.Phase.{
  AllIn, cas_paths, dylib_paths, AllPresent, load_phase-Ready,
}

abbrev pub bind_steps : List ℕ → List Step
bind_steps [] = []
bind_steps (im ∷ ims) = bind im ∷ bind_steps ims

bind_images-all :
    (bind_symbols : ℕ → Result (Unit {0})) (ims : List ℕ)
    → ((im : ℕ) → bind_symbols im ≡ done tt)
    → bind_images bind_symbols ims ≡ done (bind_steps ims)
unfolding bind_images
bind_images-all bind_symbols [] binds = refl
bind_images-all bind_symbols (im ∷ ims) binds =
    rw (binds im, bind_images-all bind_symbols ims binds) refl

run_initializers-all :
    (do_initialize : ℕ → Result (Unit {0})) (called : List ℕ)
    → ((im : ℕ) → do_initialize im ≡ done tt)
    → run_initializers do_initialize called ≡ done tt
unfolding run_initializers
run_initializers-all do_initialize [] runs = refl
run_initializers-all do_initialize (im ∷ called) runs =
    rw (run_initializers-all do_initialize called runs, runs im) refl

pending-le : (called : List ℕ) (ls : List Loaded) → pending called (images ls) ≤ length ls
unfolding pending
pending-le called [] = omega arith
pending-le called (l ∷ ls) = ground (arith, pending-le called ls)

unloaded-le-length : (ps : List ℕ) (ls : List Loaded) → unloaded ps ls ≤ length ps
unfolding unloaded
unloaded-le-length [] ls = omega arith
unloaded-le-length (p ∷ ps) ls = ground (arith, unloaded-le-length ps ls)

path_rank-lt :
    (rank : ℕ → ℕ) (ranks : ℕ) (path : Option ℕ)
    → ((p : ℕ) → rank p < ranks)
    → path_rank rank path < suc ranks
path_rank-lt rank ranks none h = omega arith
path_rank-lt rank ranks (some p) h = omega (arith, h p)

image_rank-lt :
    (rank : ℕ → ℕ) (ranks : ℕ) (ls : List Loaded) (im : ℕ)
    → ((p : ℕ) → rank p < ranks)
    → image_rank rank ls im < suc ranks
unfolding image_rank
image_rank-lt rank ranks [] im h = omega arith
image_rank-lt rank ranks (l ∷ ls) im h = elim (Bool-cases (l.image == im)) [
  | inl y ↦ rw y (path_rank-lt rank ranks l.orig_path h)
  | inr n ↦ rw n (image_rank-lt rank ranks ls im h)
]

alone-Sound : Sound (with_dylinker no_images)
unfolding copies
alone-Sound = (λ h. cc, λ q. omega arith)

-- The steps of `_main`, where `main_image` is the object of the main executable.
abbrev pub steps_of : List ℕ → List ℕ → ℕ → List ℕ → List Step
steps_of ims called main_image argv =
    main_runtime
    ∷ (bind_steps ims
        ++ (bind main_image
            ∷ (auxiliary_runtime
                ∷ initialized called
                    (Step.initialize main_image ∷ (test ∷ (call_main (argv ++ (0 ∷ [])) ∷ []))))))

-- `_main`, where: `sDylinker` is the first object and its image loads nothing; all paths that it, the main
-- executable and the files behind them name are among fewer than 2^32 - 1 `paths`, and `rank`, below `ranks`, falls from
-- a file to what it loads; the linker does not halt in the `instantiateFromFile`, the `init` and the `doRebase` of
-- these files, and not in the `init` of its own image and of the main executable; `doBindSymbols` and
-- `doInitialize` return; there are fewer than 1024 arguments; loads may nest
-- deeper than there are paths, and `initializeChain` gets two passes more than there are ranks.
-- It reaches the call of the program. In front of it, in this order: every image of the chain is bound, by the chain's
-- order, then the main executable; the auxiliary runtime starts; every image of the chain is
-- initialised, each behind all its dependencies; the main executable, which is not in the chain, is
-- initialised. The paths of the
-- auxiliary libraries, of the main executable's libraries and of `cas::init` stand in the chain
-- once, where they have a file and are no names of libSystem or libgcc, and the main executable's
-- dependencies are images of the chain.
pub main_in_order :
    (m : Machine) (p : Program) (paths : List ℕ) (rank : ℕ → ℕ) (ranks bound depth : ℕ)
    (garbage : Bool) (bind_symbols do_initialize : ℕ → Result (Unit {0}))
    → m.dylinker ≡ some 0
    → p.linker_dylibs ≡ []
    → p.linker_init ≡ done tt
    → p.main_init ≡ done tt
    → suc (length paths) < 2 ^ 32
    → ((q file : ℕ)
        → contains paths q ≡ true
        → open_library m q ≡ some file
        → AllBelow rank paths (suc (length paths)) (rank q) (m.dylibs file) × Works m file)
    → AllIn paths p.aux_paths
    → AllBelow rank paths (suc (length paths)) bound p.main_dylibs
    → AllIn paths (cas_paths p.cas_path)
    → ((q : ℕ) → rank q < ranks)
    → ((im : ℕ) → bind_symbols im ≡ done tt)
    → ((im : ℕ) → do_initialize im ≡ done tt)
    → length p.argv < 1024
    → length paths < depth
    → (main_image : ℕ) × (s : Loader) × (called : List ℕ) × (main m depth
          (suc (suc ranks))
          garbage
          bind_symbols
          do_initialize
          p
        ≡ done (steps_of (images s.chain) called main_image p.argv, s))
      × (contains (images s.chain) main_image ≡ false)
      × (dependencies_initialized called (images s.chain) ≡ true)
      × IsOrdered (deps_of s.dependencies) called
      × AllPresent m p.aux_paths s
      × AllPresent m (dylib_paths p.main_dylibs) s
      × AllPresent m (cas_paths p.cas_path) s
      × (dependencies_initialized (images s.chain) (deps_of s.dependencies main_image) ≡ true)
unfolding main copy_argv
main_in_order m p paths rank ranks bound depth garbage bind_symbols do_initialize linker no_dylibs
      linker_ready main_ready small closed aux below cas bounded binds runs short deep =
    let limit : ℕ = suc (length paths) in
    let few = unloaded-le-length paths (dylinker ∷ []) in
    let (n, s, e, (fits, sound, fuel), outside, present_aux, present_main, present_cas) =
      load_phase-Ready rank paths limit m linker small closed depth p bound no_dylibs linker_ready
        main_ready aux below cas
        (alone-Fits rank paths limit (omega (arith, few)), alone-Sound, omega (arith, few)) in
    let needs = needs-Lowers rank s.chain s.next_object s.dependencies in
    let (called, ends, all, ordered) =
      initializes_in_order (deps_of s.dependencies) (images s.chain) (image_rank rank s.chain)
        (λ x d h k. (needs x d fits.lower k).0) (λ x d h k. (needs x d fits.lower k).1 h)
        (suc ranks) s.image_count garbage (λ x h. image_rank-lt rank ranks s.chain x bounded)
        (omega (arith, pending-le [] s.chain, fits.counted)) in
    let fits_argv : leb 1024 (length p.argv) ≡ false = ground (arith, short) in
    (
      n,
      s,
      called,
      rw
          (
            fits_argv,
            e,
            bind_images-all bind_symbols (images s.chain) binds,
            binds n,
            ends,
            run_initializers-all do_initialize called runs,
            runs n,
          )
          refl,
      outside,
      all,
      ordered,
      present_aux,
      present_main,
      present_cas,
      all-intro (images s.chain) (deps_of s.dependencies n) (λ d k. (needs n d fits.lower k).0),
    )
