-- ===== src/Linker/Main/Runs.antt =====
-- A run of `_main` of core/lnk.cpp with two libraries, of which one needs the other.
use lib_system_and_linker.Prelude.{
  ℕ, ◌<◌, ◌≡◌, refl, ◌==◌, if◌then◌else◌, Bool, true, false, Bool-cases, inl, inr, Option, none,
  some, List, [], ◌∷◌, arith,
}
use lib_system_and_linker.Linker.Stream.{Result, halts, done, ◌>>=◌}
use lib_system_and_linker.Linker.Chain.{contains, dependencies_initialized, initialize_chain}
use lib_system_and_linker.Linker.Chain.Steps.{IsOrdered}
use lib_system_and_linker.Linker.Load.{
  Prefix, plain, system, usr_lib, Machine, Works, Loader, open_library, load_library,
}
use lib_system_and_linker.Linker.Main.{
  main_runtime, bind, auxiliary_runtime, initialize, test, call_main, Program, images, deps_of,
  main,
}
use lib_system_and_linker.Linker.Main.Fits.{AllBelow}
use lib_system_and_linker.Linker.Main.Phase.{AllPresent}
use lib_system_and_linker.Linker.Main.Ordered.{steps_of, main_in_order}

abbrev opens : Prefix → ℕ → Option ℕ
opens plain q = if q == 10 then some 100 else none
opens system q = none
opens usr_lib q = if q == 11 then some 101 else none

abbrev dylibs : ℕ → List (ℕ × Bool)
dylibs file = if file == 100 then (11, false) ∷ ((1, false) ∷ []) else (1, false) ∷ []

abbrev machine : Machine
machine = record {
  libsystem_path = 1;
  libgcc_path = 2;
  opens = opens;
  dylibs = dylibs;
  dylinker = some 0;
  instantiate = λ file. done tt;
  init = λ file. done tt;
  rebase = λ file im. done tt;
}

-- A library that cannot be rebased halts the linker before the program is called.
abbrev broken : Machine
broken = record machine { rebase = λ file im. if file == 101 then halts else done tt }

-- No file is behind 12.
abbrev program : Program
program = record {
  linker_dylibs = [];
  main_dylibs = (10, false) ∷ ((1, false) ∷ []);
  aux_paths = 12 ∷ (11 ∷ []);
  cas_path = some 12;
  argv = 0x5000 ∷ [];
  linker_init = done tt;
  main_init = done tt;
}

abbrev paths : List ℕ
paths = 10 ∷ (11 ∷ (1 ∷ (12 ∷ [])))

abbrev rank : ℕ → ℕ
rank q = if q == 10 then 2 else (if q == 11 then 1 else 0)

abbrev binds : ℕ → Result (Unit {0})
binds im = done tt

works : (file : ℕ) → Works machine file
works file = (refl, refl, λ im. refl)

closed :
    (q file : ℕ)
    → contains paths q ≡ true
    → open_library machine q ≡ some file
    → AllBelow rank paths 5 (rank q) (dylibs file) × Works machine file
unfolding contains open_library
closed q file h e = elim (Bool-cases (q == 10)) [
  | inl y ↦
      let is : file ≡ 100 = ground (arith, y, e) in
      rw (y, is) ((refl, omega arith, (refl, omega arith, tt)), works file)
  | inr n ↦ elim (Bool-cases (q == 11)) [
    | inl y ↦
        let is : file ≡ 101 = ground (arith, n, y, e) in
        rw (n, y, is) ((refl, omega arith, tt), works file)
    | inr k ↦ ground (arith, n, k, e)
  ]
]

rank-bound : (q : ℕ) → rank q < 3
rank-bound q = ground arith

-- The library that has no needs of its own stands behind the other one, and is initialised first.
runs_in_order :
    (main machine 6 5 true binds binds program >>= λ r. done r.0)
    ≡ done (
        main_runtime
        ∷ (bind 0
            ∷ (bind 3
                ∷ (bind 1
                    ∷ (bind 2
                        ∷ (auxiliary_runtime
                            ∷ (initialize 0
                                ∷ (initialize 1
                                    ∷ (initialize 3
                                        ∷ (initialize 2
                                            ∷ (test
                                                ∷ (call_main (0x5000 ∷ (0 ∷ [])) ∷ []))))))))))))
unfolding main load_library initialize_chain
runs_in_order = refl

halts_before_call : main broken 6 5 true binds binds program ≡ halts
unfolding main load_library initialize_chain
halts_before_call = refl

main_in_order_example :
    (main_image : ℕ) × (s : Loader) × (called : List ℕ) × (main machine 6 5 true binds binds program
      ≡ done (steps_of (images s.chain) called main_image (0x5000 ∷ []), s))
    × (contains (images s.chain) main_image ≡ false)
    × (dependencies_initialized called (images s.chain) ≡ true)
    × IsOrdered (deps_of s.dependencies) called
    × AllPresent machine (12 ∷ (11 ∷ [])) s
    × AllPresent machine (10 ∷ (1 ∷ [])) s
    × AllPresent machine (12 ∷ []) s
    × (dependencies_initialized (images s.chain) (deps_of s.dependencies main_image) ≡ true)
unfolding contains
main_in_order_example =
    main_in_order machine program paths rank 3 3 6 true binds binds refl refl refl refl
      (omega arith) closed (refl, (refl, tt)) (refl, omega arith, (refl, omega arith, tt))
      (refl, tt) rank-bound (λ im. refl) (λ im. refl) (omega arith) (omega arith)
