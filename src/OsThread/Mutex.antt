-- ===== src/OsThread/Mutex.antt =====
-- Mutexes in core/OSThread.c, with the static initialisers' signatures that no file of the
-- repository defines as parameters.
pub mod Calls
pub mod Recursive
pub mod Kinds
use lib_system_and_linker.Prelude.{
  ℕ, ◌+◌, ◌-◌, ◌%◌, ◌^◌, ◌==◌, ◌&&◌, not, if◌then◌else◌, true, false, Option, none, some,
}
use lib_system_and_linker.LowLevelLock.{lll_trylock}
use lib_system_and_linker.OsThread.Outcome.{
  Outcome, M, pure, ◌>>=◌, ◌>>◌, modify, gets, lock_word, unlock_word,
}

-- `OSMutex`. `count` is an `int32_t`, kept as its bit pattern.
pub record OsMutex : Type 0 where
  pub sig : ℕ
  pub type : ℕ
  pub count : ℕ
  pub owner : ℕ
  pub initialized : ℕ
  pub lll : ℕ

-- A mutex and the global lock of the recursive operations.
pub record Mutexes : Type 0 where
  pub mutex : OsMutex
  pub recursive_op_lock : ℕ

-- The values of core/pthread.h and core/pthread_impl.h.
abbrev pub mutex_normal : ℕ
mutex_normal = 0

abbrev pub mutex_errorcheck : ℕ
mutex_errorcheck = 1

abbrev pub mutex_recursive : ℕ
mutex_recursive = 2

abbrev pub mutex_sig_init : ℕ
mutex_sig_init = 0x32AAABA7

-- `_PTHREAD_RECURSIVE_MUTEX_SIG_init` and `_PTHREAD_ERRORCHECK_MUTEX_SIG_init`.
pub record Signatures : Type 0 where
  pub recursive_sig_init : ℕ
  pub errorcheck_sig_init : ℕ

-- What the functions return: 0, `-EDEADLK` or `-EPERM`.
pub data Status : Type 0 where
  success : Status
  neg_edeadlk : Status
  neg_eperm : Status

unfoldable pub lock_mutex : M Mutexes (Unit {0})
unfolding lock_word
lock_mutex =
    lock_word (λ s. s.mutex.lll) (λ word s. record s { mutex = record (s.mutex) { lll = word } })

unfoldable pub unlock_mutex : M Mutexes (Unit {0})
unlock_mutex =
    unlock_word (λ s. s.mutex.lll) (λ word s. record s { mutex = record (s.mutex) { lll = word } })

unfoldable pub lock_recursive : M Mutexes (Unit {0})
unfolding lock_word
lock_recursive =
    lock_word (λ s. s.recursive_op_lock) (λ word s. record s { recursive_op_lock = word })

unfoldable pub unlock_recursive : M Mutexes (Unit {0})
unlock_recursive =
    unlock_word (λ s. s.recursive_op_lock) (λ word s. record s { recursive_op_lock = word })

-- `lll_trylock(&(mutex->lll))`
unfoldable pub trylock_mutex : M Mutexes ℕ
unfolding lll_trylock
trylock_mutex s =
    let (word, found) = lll_trylock s.mutex.lll in
    Outcome.done found (record s { mutex = record (s.mutex) { lll = word } })

abbrev pub set_count : ℕ → Mutexes → Mutexes
set_count n s = record s { mutex = record (s.mutex) { count = n } }

abbrev signalled : ℕ → ℕ → Mutexes → Mutexes
signalled tid type s = record s { mutex = record (s.mutex) { sig = 0; owner = tid; type = type } }

-- `tid` is the `pid` of the current thread.
module _ (sigs : Signatures) (tid : ℕ) where
  unfoldable pub os_process_mutex_signal : M Mutexes (Unit {0})
  os_process_mutex_signal s = elim (s.mutex.sig == mutex_sig_init) [
    | true ↦ Outcome.done tt (signalled tid mutex_normal s)
    | false ↦ elim (s.mutex.sig == sigs.recursive_sig_init) [
      | true ↦ Outcome.done tt (signalled tid mutex_recursive s)
      | false ↦ elim (s.mutex.sig == sigs.errorcheck_sig_init) [
        | true ↦ Outcome.halts
        | false ↦ Outcome.done tt s
      ]
    ]
  ]

  -- `mutex->count += 1`, and the first lock takes the word.
  unfoldable pub enter_recursive : M Mutexes (Unit {0})
  unfolding lock_mutex
  enter_recursive s =
      let s' = set_count ((s.mutex.count + 1) % 2 ^ 32) s in
      elim (s'.mutex.count == 1) [ true ↦ lock_mutex s' | false ↦ Outcome.done tt s' ]

  unfoldable pub lock_owned : M Mutexes Status
  unfolding lock_recursive unlock_recursive enter_recursive
  lock_owned = do lock_recursive; enter_recursive; unlock_recursive; pure success

  unfoldable pub lock_errorcheck : M Mutexes Status
  unfolding trylock_mutex
  lock_errorcheck = do
    mtr ← trylock_mutex
    owner ← gets (λ s. s.mutex.owner)
    pure (if not (mtr == 0) && (owner == tid) then neg_edeadlk else success)

  unfoldable pub lock_normal : M Mutexes Status
  unfolding lock_mutex
  lock_normal = do lock_mutex; pure success

  unfoldable pub lock_by_type : M Mutexes Status
  unfolding lock_normal lock_owned lock_errorcheck
  lock_by_type s = elim (s.mutex.type == mutex_normal) [
    | true ↦ lock_normal s
    | false ↦ elim (s.mutex.type == mutex_recursive) [
      | true ↦ elim (s.mutex.owner == tid) [ true ↦ lock_owned s | false ↦ Outcome.halts ]
      | false ↦ elim (s.mutex.type == mutex_errorcheck) [
        | true ↦ lock_errorcheck s
        | false ↦ Outcome.halts
      ]
    ]
  ]

  unfoldable pub pthread_mutex_lock : M Mutexes Status
  unfolding os_process_mutex_signal lock_by_type
  pthread_mutex_lock = do os_process_mutex_signal; lock_by_type

  -- `count == 0`: `-EPERM`; `count == 1`: the word is released; then `count -= 1`.
  unfoldable pub leave_recursive : M Mutexes Status
  unfolding unlock_mutex
  leave_recursive s = elim (s.mutex.count == 0) [
    | true ↦ Outcome.done neg_eperm s
    | false ↦ elim (s.mutex.count == 1) [
      | true ↦ (do unlock_mutex; modify (set_count 0); pure success) s
      | false ↦ Outcome.done success (set_count (s.mutex.count - 1) s)
    ]
  ]

  -- Both returns of the recursive branch come behind the release of `recursive_op_lock`.
  unfoldable pub unlock_owned : M Mutexes Status
  unfolding lock_recursive unlock_recursive leave_recursive
  unlock_owned = do lock_recursive; status ← leave_recursive; unlock_recursive; pure status

  unfoldable pub unlock_plain : M Mutexes Status
  unfolding unlock_mutex
  unlock_plain = do unlock_mutex; pure success

  unfoldable pub pthread_mutex_unlock : M Mutexes Status
  unfolding unlock_plain unlock_owned
  pthread_mutex_unlock s = elim (s.mutex.type == mutex_normal) [
    | true ↦ unlock_plain s
    | false ↦ elim (s.mutex.type == mutex_recursive) [
      | true ↦ elim (s.mutex.owner == tid) [ true ↦ unlock_owned s | false ↦ Outcome.halts ]
      | false ↦ elim (s.mutex.type == mutex_errorcheck) [
        | true ↦ unlock_plain s
        | false ↦ Outcome.halts
      ]
    ]
  ]

-- `pthread_mutex_trylock`, for any mutex.
unfoldable pub pthread_mutex_trylock : M Mutexes Status
pthread_mutex_trylock = pure success

unfoldable pub pthread_mutex_destroy : M Mutexes Status
pthread_mutex_destroy = pure success

-- `pthread_mutex_init`: the attributes' type, or `none` for NULL attributes. `sig` and, with
-- attributes, `count` stay as they are in memory.
unfoldable pub pthread_mutex_init : ℕ → Option ℕ → M Mutexes Status
pthread_mutex_init tid none s =
    Outcome.done success (record s {
      mutex = record (s.mutex) { type = mutex_normal; count = 0; owner = tid; lll = 0 };
    })
pthread_mutex_init tid (some type) s =
    Outcome.done success
      (record s { mutex = record (s.mutex) { type = type; owner = tid; lll = 0 } })
