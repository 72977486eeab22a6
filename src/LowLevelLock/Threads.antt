-- ===== src/LowLevelLock/Threads.antt =====
-- core/LowLevelLock.c with many threads on one lock: one step is one access to the lock's word.
-- The kernel is not modelled: a call of `futex` may sleep or return, and a sleeper may wake at any
-- time, so what holds here holds for every kernel.
use lib_system_and_linker.Prelude.{ℕ, ◌==◌, ltb, ◌<◌, if◌then◌else◌, Bool, true, false, ℕ_discrete}
use mathlib.Core.Logic.{ite}

-- Where a thread stands.
pub data Pc : Type 0 where
  outside : Pc  -- in none of the functions, and without the lock
  mark : Pc  -- before the first compare-and-exchange of `lll_lock_wait`
  sleepy : Pc  -- before the call of `futex` in `lll_futex_wait`
  asleep : Pc  -- in the kernel
  claim : Pc  -- before the test of the loop of `lll_lock_wait`
  held : Pc  -- `lll_lock` or `lll_trylock` has returned with the lock
  read : Pc  -- in `lll_unlock`, before the load of `OSAtomicExchange`
  swap : (oldval : ℕ) → Pc  -- before its compare-and-exchange, with `__atg5_oldval`
  wake : Pc  -- before `lll_futex_wake`

abbrev pub update : (ℕ → Pc) → ℕ → Pc → ℕ → Pc
update pc i p j = ite (ℕ_discrete i j) p (pc j)

-- `compare_and_exchange` on the word: what is stored, and what is found is the old word.
abbrev pub stored : ℕ → ℕ → ℕ → ℕ
stored word newval oldval = if word == oldval then newval else word

abbrev pub lock_goes : ℕ → Pc
lock_goes found = if found == 0 then held else mark

abbrev pub mark_goes : ℕ → Pc
mark_goes old = if old == 0 then claim else sleepy

abbrev pub claim_goes : ℕ → Pc
claim_goes found = if found == 0 then held else mark

abbrev pub trylock_goes : ℕ → Pc
trylock_goes found = if found == 0 then held else outside

-- The loop of `OSAtomicExchange`, and behind it the test of `lll_unlock`.
abbrev pub swap_goes : ℕ → ℕ → Pc
swap_goes found oldval = if found == 0 then (if ltb 1 oldval then wake else outside) else read

-- A step of one thread: from the word and its place to the new ones.
pub data Move (word : ℕ) : Pc → ℕ → Pc → Type 0 where
  lock : Move word outside (stored word 1 0) (lock_goes word)
  trylock : Move word outside (stored word 1 0) (trylock_goes word)
  mark_two : Move word mark (stored word 2 1) (mark_goes word)
  futex_sleeps : Move word sleepy word asleep
  futex_returns : Move word sleepy word claim
  wakes : Move word asleep word claim
  claim_two : Move word claim (stored word 2 0) (claim_goes word)
  unlock : Move word held word read
  exchange_load : Move word read word (swap word)
  exchange_swap :
      {oldval : ℕ} → Move word (swap oldval) (stored word 0 oldval) (swap_goes word oldval)
  futex_wakes : Move word wake word outside

pub record System : Type 0 where
  pub word : ℕ
  pub pc : ℕ → Pc

abbrev pub after : System → ℕ → ℕ → Pc → System
after s i word p = record { word = word; pc = update s.pc i p }

-- Thread `i` of `n` makes a step.
pub data Step (n : ℕ) (s : System) : System → Type 0 where
  step :
      (i : ℕ) {word : ℕ} {p : Pc}
      → i < n
      → Move s.word (s.pc i) word p
      → Step n s (after s i word p)

abbrev pub free : System
free = record { word = 0; pc = λ _. outside }

pub data Reach (n : ℕ) : System → Type 0 where
  start : Reach n free
  later : {s t : System} → Reach n s → Step n s t → Reach n t

-- Between the return of `lll_lock` and the call of `lll_unlock`.
abbrev pub holds : Pc → Bool
holds held = true
holds _ = false

-- Inside the loop of `OSAtomicExchange`.
abbrev pub exchanges : Pc → Bool
exchanges read = true
exchanges (swap _) = true
exchanges _ = false
