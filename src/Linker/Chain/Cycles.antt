-- ===== src/Linker/Chain/Cycles.antt =====
-- Chains on which `initializeChain` of core/lnk.cpp does not end.
use lib_system_and_linker.Prelude.{
  Bool-cases, inl, inr, ℕ, zero, suc, ◌≡◌, ◌≢◌, refl, Bool, true, false, none, List, [], ◌∷◌, arith,
}
use lib_system_and_linker.Linker.Chain.{
  contains, dependencies_initialized, State, visit, pass, run_init, initialize_chain,
}
use lib_system_and_linker.Linker.Chain.Steps.{circular_count-zero}

-- Every image whose dependencies have run has run itself, and no two images depend on each other
-- directly.
module _ (deps : ℕ → List ℕ) (called : List ℕ)
    (settled : (x : ℕ) → dependencies_initialized called (deps x) ≡ true → contains called x ≡ true)
    (no_pairs : (x d : ℕ) → contains (deps x) d ≡ true → contains (deps d) x ≡ false) where
  abbrev IsStalled : State → Type 0
  IsStalled s = (s.called ≡ called) × (s.ccount ≡ 0) × (s.icount ≢ 0)

  visit-waits :
      (im : ℕ) (s : State)
      → IsStalled s
      → dependencies_initialized called (deps im) ≡ false
      → visit deps im s ≡ (record s { has_unitialized_dependencies = true }, false)
  unfolding visit
  visit-waits im s h k = ground (arith, circular_count-zero deps (deps im) im (no_pairs im))

  visit-settled :
      (im : ℕ) (s : State)
      → IsStalled s
      → dependencies_initialized called (deps im) ≡ true
      → visit deps im s ≡ (s, false)
  unfolding visit
  visit-settled im s h k = ground (arith, settled im k)

  pass-waiting :
      (images : List ℕ) (s : State)
      → IsStalled s
      → s.has_unitialized_dependencies ≡ true
      → pass deps images s ≡ (s, false)
  unfolding pass
  pass-waiting [] s h k = refl
  pass-waiting (im ∷ rest) s h k = elim (Bool-cases (dependencies_initialized called (deps im))) [
    | inl done ↦ ground (arith, visit-settled im s h done, pass-waiting rest s h k)
    | inr waits ↦ ground (arith, visit-waits im s h waits, pass-waiting rest s h k)
  ]

  pass-stalled :
      (images : List ℕ) (x : ℕ) (s : State)
      → IsStalled s
      → contains images x ≡ true
      → dependencies_initialized called (deps x) ≡ false
      → pass deps images s ≡ (record s { has_unitialized_dependencies = true }, false)
  unfolding pass contains
  pass-stalled [] x s h k w = cc
  pass-stalled (im ∷ rest) x s h k w =
      elim (Bool-cases (dependencies_initialized called (deps im))) [
        | inl done ↦ ground (arith, visit-settled im s h done, pass-stalled rest x s h)
        | inr waits ↦ ground (
          arith,
          visit-waits im s h waits,
          pass-waiting rest (record s { has_unitialized_dependencies = true }) h refl,
        )
      ]

  run_init-stalled :
      (images : List ℕ) (x passes : ℕ) (s : State)
      → IsStalled s
      → contains images x ≡ true
      → dependencies_initialized called (deps x) ≡ false
      → run_init deps images passes s ≡ none
  unfolding run_init
  run_init-stalled images x zero s h k w = refl
  run_init-stalled images x (suc passes) s h k w = ground (
    arith,
    pass-stalled images x (record s { has_unitialized_dependencies = false }) h k w,
    run_init-stalled images x passes (record s { has_unitialized_dependencies = true }) h k w,
  )

  -- Once every image whose dependencies have run has run itself, and no two images depend on each
  -- other directly, one image of the chain that still waits is enough: `initializeChain` never ends,
  -- whatever the number of passes. A ring of three images is such a case.
  pub rings_never_end :
      (images : List ℕ) (x passes image_count : ℕ) (garbage : Bool)
      → image_count ≢ 0
      → contains images x ≡ true
      → dependencies_initialized called (deps x) ≡ false
      → initialize_chain deps images passes image_count garbage called ≡ none
  unfolding initialize_chain
  rings_never_end images x passes image_count garbage h k w = ground (
    arith,
    run_init-stalled images x passes
        (record {
          called = called;
          icount = image_count;
          ccount = 0;
          has_unitialized_dependencies = false;
          run_circular_initializer = garbage;
        })
        (refl, refl, h) k w,
  )
