-- ===== src/OsThread/Tls/Calls.antt =====
-- The calls of core/OSThread.c's thread-local storage as one change of the state each.
use lib_system_and_linker.Prelude.{ℕ, ◌<◌, ◌≡◌, ◌≢◌, none, some, arith, drop}
use lib_system_and_linker.OsThread.Outcome.{done, halts, unlock_word_lem}
use lib_system_and_linker.OsThread.Tls.{
  check_current, Tls, lock_tls, unlock_tls, pthread_getspecific, pthread_setspecific,
  pthread_key_create, pthread_key_init_np, value_of, with_value, first_free, allot, tls_count,
  tls_uk_start,
}
use lib_system_and_linker.OsThread.Tls.Slots.{index_of_key-lt}

pub lock_tls-free : (s : Tls) → s.tls_lock ≡ 0 → lock_tls s ≡ done tt (record s { tls_lock = 1 })
unfolding lock_tls
lock_tls-free s h = ground arith

check_current-running : (s : Tls) → s.current ≢ 0 → check_current s ≡ done tt s
unfolding check_current
check_current-running s h = ground arith

pub unlock_tls_lem : (s : Tls) → unlock_tls s ≡ done tt (record s { tls_lock = 0 })
unfolding unlock_tls
unlock_tls_lem s = unlock_word_lem _ _ s

module _ (s : Tls) (free : s.tls_lock ≡ 0) where
  pub pthread_getspecific_lem :
      (key : ℕ) → pthread_getspecific key s ≡ done (value_of s.list key) (record s { tls_lock = 0 })
  unfolding pthread_getspecific
  pthread_getspecific_lem key =
      ground (arith, lock_tls-free s free, unlock_tls_lem (record s { tls_lock = 1 }))

  pub pthread_setspecific_lem :
      (key ptr : ℕ)
      → pthread_setspecific key ptr s
        ≡ done 0 (record s { tls_lock = 0; list = with_value s.list key ptr })
  unfolding pthread_setspecific
  pthread_setspecific_lem key ptr = ground (
    arith,
    lock_tls-free s free,
    unlock_tls_lem (record s { tls_lock = 1; list = with_value s.list key ptr }),
  )

  module _ (running : s.current ≢ 0) where
    pub pthread_key_create-some :
        (destr i : ℕ)
        → first_free (drop tls_uk_start s.list) tls_uk_start ≡ some i
        → pthread_key_create destr s ≡ done i (allot i destr (record s { tls_lock = 0 }))
    unfolding pthread_key_create
    pthread_key_create-some destr i e =
        ground
          (arith, lock_tls-free s free, unlock_tls_lem (allot i destr (record s { tls_lock = 1 })))

    pub pthread_key_create-none :
        (destr : ℕ)
        → first_free (drop tls_uk_start s.list) tls_uk_start ≡ none
        → pthread_key_create destr s ≡ halts
    unfolding pthread_key_create
    pthread_key_create-none destr e =
        ground (arith, check_current-running s running, lock_tls-free s free)

    pub pthread_key_init_np_lem :
        (key dest : ℕ)
        → key < tls_count
        → pthread_key_init_np key dest s ≡ done tt (allot key dest (record s { tls_lock = 0 }))
    unfolding pthread_key_init_np
    pthread_key_init_np_lem key dest h = ground (
      arith,
      check_current-running s running,
      lock_tls-free s free,
      index_of_key-lt tls_count 0 key (omega arith) h,
      unlock_tls_lem (allot key dest (record s { tls_lock = 1 })),
    )
