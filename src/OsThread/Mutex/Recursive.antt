-- ===== src/OsThread/Mutex/Recursive.antt =====
-- Recursive mutexes of core/OSThread.c: how locks and unlocks nest.
use lib_system_and_linker.Prelude.{
  ℕ, zero, suc, ◌+◌, ◌^◌, ◌<◌, ◌==◌, ◌≡◌, ◌≢◌, refl, if◌then◌else◌, arith,
}
use lib_system_and_linker.OsThread.Outcome.{M, done, pure, ◌>>=◌, ◌>>◌}
use lib_system_and_linker.OsThread.Mutex.{
  Mutexes, Signatures, success, mutex_recursive, enter_recursive, lock_owned, pthread_mutex_lock,
  leave_recursive, unlock_owned, pthread_mutex_unlock,
}
use lib_system_and_linker.OsThread.Mutex.Calls.{
  op_lock, lock_recursive-free, unlock_recursive_lem, unlock_mutex_lem, process-IsStarted,
}

-- The thread `tid` has locked the mutex `n` times; for 0, the mutex is free and belongs to `tid`.
pub record IsHeld (tid n : ℕ) (s : Mutexes) : Type 0 where
  pub started : s.mutex.sig ≡ 0
  pub kind : s.mutex.type ≡ mutex_recursive
  pub mine : s.mutex.owner ≡ tid
  pub depth : s.mutex.count ≡ n
  pub word : s.mutex.lll ≡ (if n == 0 then 0 else 1)
  pub idle : s.recursive_op_lock ≡ 0

abbrev with_lock : ℕ → ℕ → Mutexes → Mutexes
with_lock n lll s = record s { mutex = record (s.mutex) { count = n; lll = lll } }

module _ (sigs : Signatures) (tid : ℕ) where
  unfoldable pub lock_times : ℕ → M Mutexes (Unit {0})
  lock_times zero = pure tt
  lock_times (suc k) = do status ← pthread_mutex_lock sigs tid; lock_times k

  unfoldable pub unlock_times : ℕ → M Mutexes (Unit {0})
  unlock_times zero = pure tt
  unlock_times (suc k) = do unlock_times k; status ← pthread_mutex_unlock sigs tid; pure tt

module _ (sigs : Signatures) (tid : ℕ) (nonzero_recursive : sigs.recursive_sig_init ≢ 0)
    (nonzero_errorcheck : sigs.errorcheck_sig_init ≢ 0) where
  enter_recursive_lem :
      (s : Mutexes) (n : ℕ)
      → s.mutex.count ≡ n
      → s.mutex.lll ≡ (if n == 0 then 0 else 1)
      → suc n < 2 ^ 32
      → enter_recursive sigs tid s ≡ done tt (with_lock (suc n) 1 s)
  unfolding enter_recursive
  enter_recursive_lem s n c l h = ground arith

  lock_owned_lem :
      (s : Mutexes) (n : ℕ)
      → IsHeld tid n s
      → suc n < 2 ^ 32
      → lock_owned sigs tid s ≡ done success (with_lock (suc n) 1 s)
  unfolding lock_owned
  lock_owned_lem s n held h = ground (
    arith,
    lock_recursive-free s held.idle,
    enter_recursive_lem (op_lock 1 s) n held.depth held.word h,
    unlock_recursive_lem (with_lock (suc n) 1 (op_lock 1 s)),
  )

  -- A lock by the owner goes one level deeper.
  pub lock_deeper :
      (s : Mutexes) (n : ℕ)
      → IsHeld tid n s
      → suc n < 2 ^ 32
      → (pthread_mutex_lock sigs tid s ≡ done success (with_lock (suc n) 1 s))
        × IsHeld tid (suc n) (with_lock (suc n) 1 s)
  unfolding pthread_mutex_lock
  lock_deeper s n held h = (
    ground (
      arith,
      process-IsStarted sigs tid s (omega (arith, held.started)),
      lock_owned_lem s n held h,
    ),
    ground arith,
  )

  leave_recursive_lem :
      (s : Mutexes) (n : ℕ)
      → s.mutex.count ≡ suc n
      → s.mutex.lll ≡ 1
      → leave_recursive sigs tid s ≡ done success (with_lock n (if n == 0 then 0 else 1) s)
  unfolding leave_recursive
  leave_recursive_lem s n c l = ground (arith, unlock_mutex_lem s)

  unlock_owned_lem :
      (s : Mutexes) (n : ℕ)
      → IsHeld tid (suc n) s
      → unlock_owned sigs tid s ≡ done success (with_lock n (if n == 0 then 0 else 1) s)
  unfolding unlock_owned
  unlock_owned_lem s n held = ground (
    arith,
    lock_recursive-free s held.idle,
    leave_recursive_lem (op_lock 1 s) n held.depth (ground arith),
    unlock_recursive_lem (with_lock n (if n == 0 then 0 else 1) (op_lock 1 s)),
  )

  unlock-with_lock :
      (s : Mutexes) (n : ℕ)
      → IsHeld tid n s
      → pthread_mutex_unlock sigs tid (with_lock (suc n) 1 s) ≡ done success s
  unfolding pthread_mutex_unlock
  unlock-with_lock s n held =
      ground (arith, unlock_owned_lem (with_lock (suc n) 1 s) n (ground arith))

  -- From a mutex that the owner holds `n` times (0 for free), `k` locks succeed and leave it held
  -- `n + k` times, and `k` unlocks then succeed and restore the state, as long as the count does
  -- not reach 2 ^ 32.
  pub unlock_times-lock_times :
      (k n : ℕ) (s : Mutexes)
      → IsHeld tid n s
      → n + k < 2 ^ 32
      → (t : Mutexes) × (lock_times sigs tid k s ≡ done tt t)
        × IsHeld tid (n + k) t
        × (unlock_times sigs tid k t ≡ done tt s)
  unfolding lock_times unlock_times
  unlock_times-lock_times zero n s held h = (s, refl, ground arith, refl)
  unlock_times-lock_times (suc k) n s held h =
      let (locked, held') = lock_deeper s n held (omega arith) in
      let (t, went, deep, back) =
        unlock_times-lock_times k (suc n) (with_lock (suc n) 1 s) held' (omega arith) in
      (
        t,
        ground (arith, locked, went),
        ground arith,
        ground (arith, back, unlock-with_lock s n held),
      )
