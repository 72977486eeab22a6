-- ===== src/LowLevelLock/Exclusion.antt =====
-- Mutual exclusion and wake-ups of core/LowLevelLock.c: what holds on the schedules of
-- Uninterrupted.antt, and what fails on all schedules.
use lib_system_and_linker.Prelude.{ℕ, ◌≤◌, ◌≡◌, ◌≢◌, refl, true, arith, ℕ_discrete}
use lib_system_and_linker.LowLevelLock.Threads.{
  wake, lock, unlock, exchange_load, exchange_swap, System, step, Reach, start, later, holds,
}
use lib_system_and_linker.LowLevelLock.Uninterrupted.{Inv, SoloReach, SoloReach-Inv}

-- While no thread runs inside another's atomic exchange, two threads never hold the lock together,
-- for any number of threads and any behaviour of the kernel; and while one holds it the word is
-- not 0.
pub mutual_exclusion :
    {n : ℕ} {s : System}
    → SoloReach n s
    → (i j : ℕ) → holds (s.pc i) ≡ true
    → holds (s.pc j) ≡ true
    → (i ≡ j) × (s.word ≢ 0)
mutual_exclusion {s} r i j hi hj =
    (inv.alone i j (ground arith) (ground arith), inv.taken i (ground arith))
  where
    inv : Inv s
    inv = SoloReach-Inv r

-- On the same schedules no thread ever reaches the call of `lll_futex_wake` in `lll_unlock`: a
-- waiter that sleeps in the kernel is never woken by an unlock.
pub no_wake : {n : ℕ} {s : System} → SoloReach n s → (i : ℕ) → s.pc i ≢ wake
no_wake r i = (SoloReach-Inv r).quiet i

-- The loop of `OSAtomicExchange` runs on after its store of 0 took effect, so it can store 0 again
-- over the lock of another thread. With two threads or more a state is reachable in which two
-- threads hold the lock.
pub two_owners :
    (n : ℕ) → 2 ≤ n → (s : System) × Reach n s × (holds (s.pc 0) ≡ true) × (holds (s.pc 1) ≡ true)
unfolding ℕ_discrete
two_owners n h = (
  _,
  later
      (later
        (later
          (later
            (later
              (later
                (later
                  (later
                    (later (later start (step 0 (omega arith) lock)) (step 0 (omega arith) unlock))
                    (step 0 (omega arith) exchange_load))
                  (step 0 (omega arith) exchange_swap))
                (step 1 (omega arith) lock))
              (step 0 (omega arith) exchange_load))
            (step 0 (omega arith) exchange_swap))
          (step 0 (omega arith) exchange_load))
        (step 0 (omega arith) exchange_swap))
      (step 0 (omega arith) lock),
  refl,
  refl,
)
