-- ===== src/Linker/Chain.antt =====
-- `initializeChain` of core/lnk.cpp, with `dependenciesInitialized` and `dependsOn` of
-- core/lnk_image.cpp: the order in which the initialisers of the loaded images run.
-- An image is a number. The chain is the list of images from `sFirstImage` on by `nextImage`, and an
-- initialiser is taken to leave the chain and the dependencies alone.

pub mod Steps
mod Passes
pub mod Cycles
pub mod Acyclic
mod Runs
use lib_system_and_linker.Prelude.{
  ℕ, zero, suc, ◌+◌, ◌-◌, ◌==◌, ltb, not, ◌&&◌, ◌||◌, if◌then◌else◌, Bool, true, false, Option,
  none, some, List, [], ◌∷◌,
}

unfoldable pub contains : List ℕ → ℕ → Bool
contains [] x = false
contains (y ∷ ys) x = if y == x then true else contains ys x

-- `dependenciesInitialized`, where `called` has the images with `fHasInitialized` set.
unfoldable pub dependencies_initialized : List ℕ → List ℕ → Bool
unfolding contains
dependencies_initialized called [] = true
dependencies_initialized called (dep ∷ deps) =
    let rest = dependencies_initialized called deps in if contains called dep then rest else false

-- The variables of `initializeChain`, and `called`: the images that have run `doInitialize`, the
-- latest first, which are those with `fHasInitialized` set. `icount` does not fall below 0, since
-- `sImageCount` counts every image of the chain.
pub record State : Type 0 where
  pub called : List ℕ
  pub icount : ℕ
  pub ccount : ℕ
  pub has_unitialized_dependencies : Bool
  pub run_circular_initializer : Bool

module _ (deps : ℕ → List ℕ) where
  -- How many of the images in the list depend on `im` directly (`dependsOn`).
  unfoldable pub circular_count : List ℕ → ℕ → ℕ
  unfolding contains
  circular_count [] im = 0
  circular_count (dep ∷ rest) im =
      (if contains (deps dep) im then 1 else 0) + circular_count rest im

  abbrev initialize : ℕ → State → State
  initialize im s =
      if contains s.called im then s else record s { called = im ∷ s.called; icount = s.icount - 1 }

  abbrev skip : ℕ → State → State
  skip circular s = record s {
    ccount = s.ccount + circular;
    has_unitialized_dependencies = circular == 0 || s.has_unitialized_dependencies;
    run_circular_initializer = not (circular == 0) || s.run_circular_initializer;
  }

  -- The body of the `while` loop; `true` for the jump to `circ_init`.
  unfoldable pub visit : ℕ → State → State × Bool
  unfolding dependencies_initialized circular_count
  visit im s =
      if dependencies_initialized s.called (deps im)
      then (initialize im s, false)
      else (if s.ccount == s.icount
          then (s, true)
          else (skip (circular_count (deps im) im) s, false))

  -- The `while` loop behind `run_init`, from an image of the chain on.
  unfoldable pub pass : List ℕ → State → State × Bool
  unfolding visit
  pass [] s = (s, false)
  pass (im ∷ rest) s = let v = visit im s in elim v.1 [ true ↦ (v.0, true) | false ↦ pass rest v.0 ]

  -- From `run_init` to `circ_init`, with a number of passes; `none` where they are not enough.
  unfoldable pub run_init : List ℕ → ℕ → State → Option State
  unfolding pass
  run_init images zero s = none
  run_init images (suc passes) s =
      let v = pass images (record s { has_unitialized_dependencies = false }) in
      elim v.1 [
        | true ↦ some v.0
        | false ↦ elim (v.0).has_unitialized_dependencies [
          | true ↦ run_init images passes v.0
          | false ↦ some v.0
        ]
      ]

-- The loop behind `circ_init`.
unfoldable pub force : List ℕ → List ℕ → List ℕ
force [] called = called
force (im ∷ rest) called = force rest (if contains called im then called else im ∷ called)

unfoldable pub circ_init : List ℕ → State → List ℕ
unfolding force
circ_init images s = if s.run_circular_initializer then force images s.called else s.called

-- `runCircularInitializer` is not initialised in the source: `garbage` is what it holds.
-- `image_count` is `sImageCount`.
unfoldable pub initialize_chain : (ℕ → List ℕ) → List ℕ → ℕ → ℕ → Bool → List ℕ → Option (List ℕ)
unfolding run_init circ_init
initialize_chain deps images passes image_count garbage called =
    elim (run_init deps images passes (record {
      called = called;
      icount = image_count;
      ccount = 0;
      has_unitialized_dependencies = false;
      run_circular_initializer = garbage;
    })) [ none ↦ none | some s ↦ some (circ_init images s) ]
