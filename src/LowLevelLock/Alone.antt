-- ===== src/LowLevelLock/Alone.antt =====
-- core/LowLevelLock.c and core/OSSpinLock.c for a caller that no other thread disturbs.
use lib_system_and_linker.Prelude.{ℕ, suc, ◌==◌, if◌then◌else◌, ◌≡◌, true, false, some, arith}
use lib_system_and_linker.LowLevelLock.{
  taken, waits, atomic_exchange, lll_trylock, lll_lock, lll_unlock, os_spin_lock_try,
}

-- Two rounds of the loop are enough: the first stores the new value and goes on where the old one
-- was not 0, the second finds 0.
pub atomic_exchange_zero : (rounds mem : ℕ) → atomic_exchange (suc (suc rounds)) mem 0 ≡ some (0, 0)
unfolding atomic_exchange
atomic_exchange_zero rounds mem = ground arith

-- `lll_unlock` ends within two rounds of its exchange, whatever the word was; it leaves the word 0
-- and does not call `lll_futex_wake`, also where the word was 2, the mark of a sleeping waiter.
pub unlock_never_wakes : (rounds futex : ℕ) → lll_unlock (suc (suc rounds)) futex ≡ some (0, false)
unfolding lll_unlock
unlock_never_wakes rounds futex = ground (arith, atomic_exchange_zero rounds futex)

-- `lll_lock` and `lll_trylock` take a free lock, and leave 1 in it. On any other word `lll_trylock`
-- changes nothing and returns the word, and `lll_lock` waits, with 1 replaced by 2.
pub lock-trylock :
    (futex : ℕ)
    → (lll_lock futex ≡ (if futex == 0 then taken 1 else waits (if futex == 1 then 2 else futex)))
      × (lll_trylock futex ≡ (if futex == 0 then (1, 0) else (futex, futex)))
unfolding lll_lock lll_trylock
lock-trylock futex = ground arith

-- `OSSpinLockTry` returns false exactly where it has taken the lock, and true exactly where it has
-- found it taken and left it as it was.
pub spin_lock_try_inverted :
    (lock : ℕ) → os_spin_lock_try lock ≡ (if lock == 0 then (1, false) else (lock, true))
unfolding os_spin_lock_try
spin_lock_try_inverted lock = ground arith
