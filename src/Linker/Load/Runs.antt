-- ===== src/Linker/Load/Runs.antt =====
-- A load in core/lnk.cpp of one of two libraries that need each other.
use lib_system_and_linker.Prelude.{
  ℕ, ◌≡◌, ◌≢◌, ◌==◌, inl, inr, refl, if◌then◌else◌, Bool, true, false, Bool-cases, Option, none,
  some, List, [], ◌∷◌, arith,
}
use lib_system_and_linker.Linker.Chain.{contains}
use lib_system_and_linker.Linker.Stream.{done}
use lib_system_and_linker.Linker.Load.{
  Prefix, plain, system, usr_lib, Machine, Works, Loader, open_library, load_library,
}
use lib_system_and_linker.Linker.Load.Counts.{copies, unloaded}
use lib_system_and_linker.Linker.Load.Once.{Sound, Within, Loads, load_library_once}

abbrev opens : Prefix → ℕ → Option ℕ
opens plain p = if p == 10 then some 100 else none
opens system p = none
opens usr_lib p = if p == 11 then some 101 else none

abbrev dylibs : ℕ → List (ℕ × Bool)
dylibs file =
    if file == 100
    then (1, false) ∷ ((11, false) ∷ [])
    else (if file == 101 then (10, true) ∷ [] else [])

abbrev machine : Machine
machine = record {
  libsystem_path = 1;
  libgcc_path = 2;
  opens = opens;
  dylibs = dylibs;
  dylinker = some 0;
  instantiate = λ file. done tt;
  init = λ file. done tt;
  rebase = λ file im. done tt;
}

abbrev start : Loader
start = record {
  chain = record { image = 0; orig_path = none } ∷ [];
  image_count = 1;
  next_object = 1;
  dependencies = [];
  rebased = [];
}

abbrev paths : List ℕ
paths = 10 ∷ 11 ∷ 1 ∷ []

has_dylinker : machine.dylinker ≢ none
has_dylinker h = cc

closed :
    (p file : ℕ)
    → contains paths p ≡ true
    → open_library machine p ≡ some file
    → Within paths (dylibs file) × Works machine file
unfolding contains
closed p file h e = elim (Bool-cases (file == 100)) [
  | inl a ↦ rw a ((refl, (refl, tt)), (refl, refl, λ im. refl))
  | inr a ↦ elim (Bool-cases (file == 101)) [
    | inl b ↦ rw (a, b) ((refl, tt), (refl, refl, λ im. refl))
    | inr b ↦ rw (a, b) (tt, (refl, refl, λ im. refl))
  ]
]

start-Sound : Sound start
unfolding copies
start-Sound = (λ h. cc, λ q. omega arith)

start-unloaded : unloaded paths start.chain ≡ 3
unfolding unloaded copies
start-unloaded = refl

contained : contains paths 10 ≡ true
unfolding contains
contained = refl

load_library_once_example :
    Loads machine paths has_dylinker closed 10 start (load_library machine 4 10 start)
load_library_once_example =
    load_library_once machine paths has_dylinker closed 4 10 start contained start-Sound
      (omega (arith, start-unloaded))

-- The second library stands in front of the first one.
loads_two :
    load_library machine 4 10 start
    ≡ done (
      record { library = some 1; already_loaded = some false },
      record {
        chain =
            record { image = 0; orig_path = none }
            ∷ (record { image = 2; orig_path = some 11 }
                ∷ (record { image = 1; orig_path = some 10 } ∷ []));
        image_count = 3;
        next_object = 3;
        dependencies =
            record { image = 1; needs = 2; re_exported = false }
            ∷ (record { image = 2; needs = 1; re_exported = true }
                ∷ (record { image = 1; needs = 0; re_exported = false } ∷ []));
        rebased = 1 ∷ (2 ∷ []);
      },
    )
unfolding load_library
loads_two = refl
