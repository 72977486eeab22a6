-- ===== src/OsThread/Mutex/Kinds.antt =====
-- The other kinds of mutexes of core/OSThread.c, their initialisation, and `pthread_mutex_trylock`.
use lib_system_and_linker.Prelude.{
  ◌==◌, if◌then◌else◌, ℕ, ◌+◌, ◌%◌, ◌^◌, ◌<◌, ◌≡◌, ◌≢◌, refl, some, arith,
}
use lib_system_and_linker.OsThread.Outcome.{done, blocks}
use lib_system_and_linker.OsThread.Mutex.{
  lock_owned, enter_recursive, set_count, Mutexes, Signatures, success, neg_edeadlk, mutex_normal,
  mutex_errorcheck, mutex_recursive, pthread_mutex_lock, pthread_mutex_unlock, pthread_mutex_init,
}
use lib_system_and_linker.OsThread.Mutex.Calls.{
  op_lock, with_word, IsStarted, lock_recursive-free, unlock_recursive_lem, unlock_mutex_lem,
  process-IsStarted,
}

enter_recursive-nonzero :
    (sigs : Signatures) (tid : ℕ) (s : Mutexes)
    → s.mutex.count ≢ 0
    → s.mutex.count < 2 ^ 32
    → enter_recursive sigs tid s ≡ done tt (set_count ((s.mutex.count + 1) % 2 ^ 32) s)
unfolding enter_recursive
enter_recursive-nonzero sigs tid s h k = ground arith

lock_owned-nonzero :
    (sigs : Signatures) (tid : ℕ) (s : Mutexes)
    → s.recursive_op_lock ≡ 0
    → s.mutex.count ≢ 0
    → s.mutex.count < 2 ^ 32
    → lock_owned sigs tid s ≡ done success (set_count ((s.mutex.count + 1) % 2 ^ 32) (op_lock 0 s))
unfolding lock_owned
lock_owned-nonzero sigs tid s idle h k = ground (
  arith,
  lock_recursive-free s idle,
  enter_recursive-nonzero sigs tid (op_lock 1 s) h k,
  unlock_recursive_lem (set_count ((s.mutex.count + 1) % 2 ^ 32) (op_lock 1 s)),
)

-- A normal mutex past its first use: a lock takes it if it is free, and blocks if it is not, whoever
-- holds it; an unlock by any thread frees it.
pub normal_lock_unlock :
    (sigs : Signatures) (tid other : ℕ) (s : Mutexes)
    → IsStarted sigs s
    → s.mutex.type ≡ mutex_normal
    → (pthread_mutex_lock sigs tid s
        ≡ (if s.mutex.lll == 0 then done success (with_word 1 s) else blocks))
      × (pthread_mutex_unlock sigs other s ≡ done success (with_word 0 s))
unfolding pthread_mutex_lock pthread_mutex_unlock
normal_lock_unlock sigs tid other s started kind =
    (ground arith, ground (arith, unlock_mutex_lem s))

-- An error-checking mutex past its first use: a lock takes a free one, and records no new owner. On
-- a taken one it changes nothing; it returns `-EDEADLK` to the thread that is recorded as the owner,
-- and success to every other one, which has not got the lock.
pub errorcheck_lock :
    (sigs : Signatures) (tid : ℕ) (s : Mutexes)
    → IsStarted sigs s
    → s.mutex.type ≡ mutex_errorcheck
    → pthread_mutex_lock sigs tid s ≡ (
        if s.mutex.lll == 0
        then done success (with_word 1 s)
        else (if s.mutex.owner == tid then done neg_edeadlk s else done success s))
unfolding pthread_mutex_lock
errorcheck_lock sigs tid s started kind = ground arith

-- After `pthread_mutex_init` with attributes of the recursive type, `count` is what the memory held.
-- Unless that was 0, the first lock succeeds and leaves the lock word 0, the free value.
pub init_keeps_count :
    (sigs : Signatures) (tid : ℕ) (s : Mutexes)
    → IsStarted sigs s
    → s.recursive_op_lock ≡ 0
    → s.mutex.count < 2 ^ 32
    → s.mutex.count ≢ 0
    → (t u : Mutexes) × (pthread_mutex_init tid (some mutex_recursive) s ≡ done success t)
      × (pthread_mutex_lock sigs tid t ≡ done success u)
      × (u.mutex.lll ≡ 0)
unfolding pthread_mutex_init pthread_mutex_lock
init_keeps_count sigs tid s started idle small used = (
  t,
  set_count ((s.mutex.count + 1) % 2 ^ 32) (op_lock 0 t),
  refl,
  ground
      (arith, process-IsStarted sigs tid t started, lock_owned-nonzero sigs tid t idle used small),
  refl,
)
  where
    t : Mutexes
    t = record s { mutex = record (s.mutex) { type = mutex_recursive; owner = tid; lll = 0 } }
