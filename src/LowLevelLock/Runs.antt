-- ===== src/LowLevelLock/Runs.antt =====
-- Runs of core/LowLevelLock.c and core/OSSpinLock.c at concrete values.
use lib_system_and_linker.Prelude.{◌≡◌, ◌≢◌, ℕ, refl, true, none, arith, ℕ_discrete}
use lib_system_and_linker.LowLevelLock.{lll_unlock}
use lib_system_and_linker.LowLevelLock.Threads.{System, Reach, free, after, held, mark, holds, lock}
use lib_system_and_linker.LowLevelLock.Uninterrupted.{SoloReach, start, later, step}
use lib_system_and_linker.LowLevelLock.Exclusion.{mutual_exclusion, two_owners}

one_round_is_not_enough : lll_unlock 1 2 ≡ none
unfolding lll_unlock
one_round_is_not_enough = refl

-- Thread 0 has the lock, and thread 1 has found it taken.
abbrev contended : System
contended = after (after free 0 1 held) 1 1 mark

contended_reach : SoloReach 2 contended
unfolding ℕ_discrete
contended_reach =
    later (later start (step 0 (omega arith) (λ j h. refl) lock))
      (step 1 (omega arith) (λ j h. ground arith) lock)

mutual_exclusion_example : (◌≡◌ {A = ℕ} 0 0) × (contended.word ≢ 0)
unfolding ℕ_discrete
mutual_exclusion_example = mutual_exclusion contended_reach 0 0 refl refl

two_owners_example : (s : System) × Reach 2 s × (holds (s.pc 0) ≡ true) × (holds (s.pc 1) ≡ true)
two_owners_example = two_owners 2 (omega arith)
