-- ===== src/Linker/Chain/Acyclic.antt =====
-- `initializeChain` of core/lnk.cpp on chains without cycles: it ends, and every initialiser runs
-- behind those of its image's dependencies.
use lib_system_and_linker.Prelude.{
  ℕ, suc, zero, ◌+◌, ◌≤◌, ◌<◌, ◌≡◌, inl, inr, refl, true, false, Bool-cases, List, [], arith, some,
  Bool,
}
use lib_system_and_linker.Linker.Chain.{
  suc, contains, dependencies_initialized, State, run_init, initialize_chain, circ_init,
}
use lib_system_and_linker.Linker.Chain.Steps.{all-intro, pending, IsOrdered, all-intro, force-all}
use lib_system_and_linker.Linker.Chain.Passes.{IsGood, AllBelow, AllRun, pass-Passed}

-- `rank` falls from an image of the chain to its dependencies, which are images of the chain too.
module _ (deps : ℕ → List ℕ) (images : List ℕ) (rank : ℕ → ℕ)
    (inside : (x d : ℕ)
      → contains images x ≡ true
      → contains (deps x) d ≡ true
      → contains images d ≡ true)
    (falls : (x d : ℕ)
      → contains images x ≡ true
      → contains (deps x) d ≡ true
      → rank d < rank x) where
  abbrev start : State → State
  start s = record s { has_unitialized_dependencies = false }

  start-IsGood :
      (s : State)
      → IsGood deps images rank inside falls s
      → IsGood deps images rank inside falls (start s)
  start-IsGood s g = record { no_cycles = g.no_cycles; ordered = g.ordered; enough = g.enough }

  -- With the images of rank below `r` run, the passes that are left for the ranks from `r` on and one
  -- more are enough.
  run_init-ends :
      (n r : ℕ) (s : State)
      → IsGood deps images rank inside falls s
      → AllBelow deps images rank inside falls r s
      → ((x : ℕ) → contains images x ≡ true → rank x < r + n)
      → (t : State) × (run_init deps images (suc n) s ≡ some t)
        × IsGood deps images rank inside falls t
        × AllRun deps images rank inside falls t
  unfolding run_init
  run_init-ends zero r s g below bound =
      let (t, went, p) =
        pass-Passed deps images rank inside falls images (start s) (start-IsGood s g) (λ x k. k) in
      let no_more : t.has_unitialized_dependencies ≡ false =
        p.calm (λ x k. below x k (omega (arith, bound x k))) refl in
      (t, ground (arith, went, no_more), p.keeps.good, p.done no_more)
  run_init-ends (suc n) r s g below bound =
      let (t, went, p) =
        pass-Passed deps images rank inside falls images (start s) (start-IsGood s g) (λ x k. k) in
      elim (Bool-cases t.has_unitialized_dependencies) [
        | inr no_more ↦ (t, ground (arith, went, no_more), p.keeps.good, p.done no_more)
        | inl again ↦
            let (u, rest, good, all) =
              run_init-ends n (suc r) t p.keeps.good (λ x k l. p.level r below x k l)
                (λ x k. omega (arith, bound x k)) in
            (u, ground (arith, went, again, rest), good, all)
      ]

  -- On a chain whose dependencies are images of the chain and do not form a cycle (`rank` falls along
  -- them), with no image initialised and `sImageCount` at least the number of images,
  -- `initializeChain` ends: one pass more than there are ranks is enough. Every image is initialised
  -- then, and each one behind all its dependencies, whatever `runCircularInitializer` held.
  pub initializes_in_order :
      (ranks image_count : ℕ) (garbage : Bool)
      → ((x : ℕ) → contains images x ≡ true → rank x < ranks)
      → pending [] images ≤ image_count
      → (called : List ℕ) × (initialize_chain deps images (suc ranks) image_count garbage []
          ≡ some called)
        × (dependencies_initialized called images ≡ true)
        × IsOrdered deps called
  unfolding initialize_chain circ_init
  initializes_in_order ranks image_count garbage bound count =
      let (t, went, good, all) =
        run_init-ends ranks 0 first (record { no_cycles = refl; ordered = tt; enough = count })
          (λ x k l. absurd (omega arith)) (λ x k. omega (arith, bound x k)) in
      let run : dependencies_initialized t.called images ≡ true = all-intro t.called images all in
      (t.called, ground (arith, went, force-all images t.called run), run, good.ordered)
    where
      first : State
      first = record {
        called = [];
        icount = image_count;
        ccount = 0;
        has_unitialized_dependencies = false;
        run_circular_initializer = garbage;
      }
