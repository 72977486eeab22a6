-- ===== src/OsThread/Outcome.antt =====
-- How a call of a function of core/OSThread.c ends, over the state `S` that it changes, and the
-- calls of core/LowLevelLock.c that those functions make.
use lib_system_and_linker.Prelude.{ℕ, ◌≡◌, none, some, arith}
use lib_system_and_linker.LowLevelLock.{Lock, lll_lock, lll_unlock}
use lib_system_and_linker.LowLevelLock.Alone.{unlock_never_wakes}

-- `blocks`: the thread waits for a lock that only another thread can release. `halts`: `OSHalt`.
-- `spins`: the rounds given to an atomic exchange were not enough.
pub data Outcome (S A : Type 0) : Type 0 where
  done : A → S → Outcome S A
  blocks : Outcome S A
  halts : Outcome S A
  spins : Outcome S A

abbrev pub M : Type 0 → Type 0 → Type 0
M S A = S → Outcome S A

abbrev pub pure : {S A : Type 0} → A → M S A
pure a s = done a s

infixl 5 ◌>>=◌ ◌>>◌
abbrev pub ◌>>=◌ : {S A B : Type 0} → M S A → (A → M S B) → M S B
◌>>=◌ m f s = elim (m s) [ done a s' ↦ f a s' | blocks ↦ blocks | halts ↦ halts | spins ↦ spins ]

abbrev pub ◌>>◌ : {S B : Type 0} → M S (Unit {0}) → M S B → M S B
m >> k = m >>= λ _. k

abbrev pub modify : {S : Type 0} → (S → S) → M S (Unit {0})
modify f s = done tt (f s)

abbrev pub gets : {S A : Type 0} → (S → A) → M S A
gets f s = done (f s) s

-- `OSHalt`, also in `OSThreadNotImplemented`.
abbrev pub os_halt : {S A : Type 0} → M S A
os_halt s = halts

-- `lll_lock` on the word that `get` reads and `put` writes.
unfoldable pub lock_word : {S : Type 0} → (S → ℕ) → (ℕ → S → S) → M S (Unit {0})
unfolding lll_lock
lock_word get put s = elim (lll_lock (get s)) [
  | Lock.taken word ↦ done tt (put word s)
  | Lock.waits word ↦ blocks
]

-- Two rounds of the exchange are enough (LowLevelLock.Alone.unlock_never_wakes).
unfoldable pub unlock_word : {S : Type 0} → (S → ℕ) → (ℕ → S → S) → M S (Unit {0})
unlock_word get put s = elim (lll_unlock 2 (get s)) [
  | none ↦ spins
  | some (word, woken) ↦ done tt (put word s)
]

pub unlock_word_lem :
    {S : Type 0} (get : S → ℕ) (put : ℕ → S → S) (s : S) → unlock_word get put s ≡ done tt (put 0 s)
unfolding unlock_word
unlock_word_lem get put s = ground (arith, unlock_never_wakes 0 (get s))
