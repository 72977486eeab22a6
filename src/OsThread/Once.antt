-- ===== src/OsThread/Once.antt =====
-- `pthread_once` in core/OSThread.c, over the data `A` that the initialiser changes.
use lib_system_and_linker.Prelude.{ℕ, zero, suc, ◌==◌, ◌≡◌, refl, true, false, arith}
use lib_system_and_linker.OsThread.Outcome.{
  Outcome, M, done, pure, ◌>>=◌, ◌>>◌, lock_word, unlock_word, unlock_word_lem,
}

-- `OSThreadOnce`, with the data.
pub record Once (A : Type 0) : Type 0 where
  pub sig : ℕ
  pub control : ℕ
  pub world : A

-- `_PTHREAD_ONCE_SIG_init` of core/pthread_impl.h.
abbrev pub once_sig_init : ℕ
once_sig_init = 0x30B1BCBA

module _ {A : Type 0} (ent : A → A) where
  lock_control : M (Once A) (Unit {0})
  unfolding lock_word
  lock_control = lock_word (λ s. s.control) (λ word s. record s { control = word })

  unlock_control : M (Once A) (Unit {0})
  unlock_control = unlock_word (λ s. s.control) (λ word s. record s { control = word })

  -- The second test of the signature, with the lock.
  unfoldable pub run_initializer : M (Once A) (Unit {0})
  run_initializer s = elim (s.sig == once_sig_init) [
    | true ↦ Outcome.done tt (record s { sig = 0; world = ent s.world })
    | false ↦ Outcome.done tt s
  ]

  once_locked : M (Once A) ℕ
  unfolding lock_control run_initializer unlock_control
  once_locked = do lock_control; run_initializer; unlock_control; pure 0

  unfoldable pub pthread_once : M (Once A) ℕ
  unfolding once_locked
  pthread_once s = elim (s.sig == once_sig_init) [ true ↦ once_locked s | false ↦ Outcome.done 0 s ]

  -- `k` further calls.
  unfoldable pub once_again : ℕ → M (Once A) ℕ
  once_again zero = pure 0
  once_again (suc k) = do ret ← pthread_once; once_again k

  lock_control-free :
      (s : Once A) → s.control ≡ 0 → lock_control s ≡ done tt (record s { control = 1 })
  unfolding lock_control
  lock_control-free s h = ground arith

  unlock_control_lem : (s : Once A) → unlock_control s ≡ done tt (record s { control = 0 })
  unfolding unlock_control
  unlock_control_lem s = unlock_word_lem _ _ s

  pthread_once-first :
      (s : Once A)
      → s.sig ≡ once_sig_init
      → s.control ≡ 0
      → pthread_once s ≡ done 0 (record s { sig = 0; control = 0; world = ent s.world })
  unfolding pthread_once
  pthread_once-first s h free = ground (
    arith,
    lock_control-free s free,
    unlock_control_lem (record s { sig = 0; control = 1; world = ent s.world }),
  )

  once_again-spent : (k : ℕ) (s : Once A) → s.sig ≡ 0 → once_again k s ≡ done 0 s
  unfolding once_again pthread_once
  once_again-spent zero s h = refl
  once_again-spent (suc k) s h = ground (arith, once_again-spent k s h)

  -- From a fresh control with its lock free, one call and any number of further ones return 0, and
  -- the initialiser has run once: later calls find the signature 0 and change nothing.
  pub once_runs_once :
      (k : ℕ) (s : Once A)
      → s.sig ≡ once_sig_init
      → s.control ≡ 0
      → once_again (suc k) s ≡ done 0 (record s { sig = 0; control = 0; world = ent s.world })
  unfolding once_again
  once_runs_once k s h free = ground (
    arith,
    pthread_once-first s h free,
    once_again-spent k (record s { sig = 0; control = 0; world = ent s.world }) refl,
  )
