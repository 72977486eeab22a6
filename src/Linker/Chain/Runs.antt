-- ===== src/Linker/Chain/Runs.antt =====
-- Runs of `initializeChain` of core/lnk.cpp on small chains.
use lib_system_and_linker.Prelude.{
  ◌<◌, ℕ, suc, ◌≡◌, ◌==◌, if◌then◌else◌, refl, true, false, none, some, List, [], ◌∷◌, arith,
}
use lib_system_and_linker.Linker.Chain.{contains, dependencies_initialized, initialize_chain}
use lib_system_and_linker.Linker.Chain.Steps.{IsOrdered, pending}
use lib_system_and_linker.Linker.Chain.Cycles.{rings_never_end}
use lib_system_and_linker.Linker.Chain.Acyclic.{initializes_in_order}

-- 0 depends on 1, 1 on 2 and 2 on 0.
abbrev ring : ℕ → List ℕ
ring x = (if x == 2 then 0 else suc x) ∷ []

ring-settled : (x : ℕ) → dependencies_initialized [] (ring x) ≡ true → contains [] x ≡ true
unfolding dependencies_initialized contains
ring-settled x h = cc

ring-no_pairs : (x d : ℕ) → contains (ring x) d ≡ true → contains (ring d) x ≡ false
unfolding contains
ring-no_pairs x d h = ground arith

abbrev three : List ℕ
three = 0 ∷ 1 ∷ 2 ∷ []

rings_never_end_example : initialize_chain ring three 50 3 false [] ≡ none
unfolding contains dependencies_initialized
rings_never_end_example =
    rings_never_end ring [] ring-settled ring-no_pairs three 0 50 3 false (omega arith) refl refl

-- 0 depends on 1 and 2, 1 on 2.
abbrev diamond : ℕ → List ℕ
diamond x = if x == 0 then 1 ∷ 2 ∷ [] else (if x == 1 then 2 ∷ [] else [])

diamond-inside :
    (x d : ℕ) → contains three x ≡ true → contains (diamond x) d ≡ true → contains three d ≡ true
unfolding contains
diamond-inside x d h k = ground arith

abbrev height : ℕ → ℕ
height x = if x == 0 then 2 else (if x == 1 then 1 else 0)

diamond-falls :
    (x d : ℕ) → contains three x ≡ true → contains (diamond x) d ≡ true → height d < height x
unfolding contains
diamond-falls x d h k = ground arith

height-bound : (x : ℕ) → contains three x ≡ true → height x < 3
unfolding contains
height-bound x h = ground arith

initializes_in_order_example :
    (called : List ℕ) × (initialize_chain diamond three 4 3 true [] ≡ some called)
    × (dependencies_initialized called three ≡ true)
    × IsOrdered diamond called
unfolding pending contains
initializes_in_order_example =
    initializes_in_order diamond three height diamond-inside diamond-falls 3 3 true height-bound
      (omega arith)

runs_latest_first : initialize_chain diamond three 4 3 false [] ≡ some (0 ∷ 1 ∷ 2 ∷ [])
unfolding initialize_chain
runs_latest_first = refl
