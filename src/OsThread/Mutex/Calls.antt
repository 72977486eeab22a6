-- ===== src/OsThread/Mutex/Calls.antt =====
-- The lock calls inside the mutex functions of core/OSThread.c as one change of the state each.
use lib_system_and_linker.Prelude.{ℕ, ◌≡◌, ◌≢◌, arith}
use lib_system_and_linker.OsThread.Outcome.{done, unlock_word_lem}
use lib_system_and_linker.OsThread.Mutex.{
  Mutexes, Signatures, mutex_sig_init, lock_recursive, unlock_recursive, unlock_mutex,
  os_process_mutex_signal,
}

abbrev pub op_lock : ℕ → Mutexes → Mutexes
op_lock word s = record s { recursive_op_lock = word }

abbrev pub with_word : ℕ → Mutexes → Mutexes
with_word word s = record s { mutex = record (s.mutex) { lll = word } }

pub lock_recursive-free :
    (s : Mutexes) → s.recursive_op_lock ≡ 0 → lock_recursive s ≡ done tt (op_lock 1 s)
unfolding lock_recursive
lock_recursive-free s h = ground arith

pub unlock_recursive_lem : (s : Mutexes) → unlock_recursive s ≡ done tt (op_lock 0 s)
unfolding unlock_recursive
unlock_recursive_lem s = unlock_word_lem _ _ s

pub unlock_mutex_lem : (s : Mutexes) → unlock_mutex s ≡ done tt (with_word 0 s)
unfolding unlock_mutex
unlock_mutex_lem s = unlock_word_lem _ _ s

-- Its signature is none of those of the static initialisers.
abbrev pub IsStarted : Signatures → Mutexes → Type 0
IsStarted sigs s =
    (s.mutex.sig ≢ mutex_sig_init)
    × (s.mutex.sig ≢ sigs.recursive_sig_init)
    × (s.mutex.sig ≢ sigs.errorcheck_sig_init)

pub process-IsStarted :
    (sigs : Signatures) (tid : ℕ) (s : Mutexes)
    → IsStarted sigs s
    → os_process_mutex_signal sigs tid s ≡ done tt s
unfolding os_process_mutex_signal
process-IsStarted sigs tid s h = ground arith
