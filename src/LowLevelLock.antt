-- ===== src/LowLevelLock.antt =====
-- core/LowLevelLock.c, the macros of core/OSUAtomic.h that it uses, and core/OSSpinLock.c.
-- A lock is one `int`; a function takes its value and returns the new one with its result. Here the
-- caller runs alone; LowLevelLock/Threads.antt has the same code one shared access at a time.
pub mod Threads
pub mod Exclusion
pub mod Uninterrupted
pub mod Alone
mod Runs
use lib_system_and_linker.Prelude.{
  ℕ, zero, suc, ◌==◌, ltb, if◌then◌else◌, Bool, true, false, not, Option, none, some,
}

-- `OSCompareAndExchangeInt(mem, newval, oldval)`: the new value of `mem`, and the value that was
-- found there (`a_tmp`), whether or not the exchange took place.
unfoldable pub compare_and_exchange : ℕ → ℕ → ℕ → ℕ × ℕ
compare_and_exchange mem newval oldval = if mem == oldval then (newval, mem) else (mem, mem)

-- `OSAtomicExchange(mem, newvalue)`: the loop goes on while the exchange returns a non-zero value.
-- `none`: the rounds given were not enough.
unfoldable pub atomic_exchange : ℕ → ℕ → ℕ → Option (ℕ × ℕ)
unfolding compare_and_exchange
atomic_exchange zero mem newvalue = none
atomic_exchange (suc rounds) mem newvalue =
    let oldval = mem in
    let (mem', found) = compare_and_exchange mem newvalue oldval in
    let again = atomic_exchange rounds mem' newvalue in
    if found == 0 then some (mem', oldval) else again

-- `lll_trylock`: the value that was found, 0 where the lock was taken.
unfoldable pub lll_trylock : ℕ → ℕ × ℕ
unfolding compare_and_exchange
lll_trylock futex = compare_and_exchange futex 1 0

-- What a call of `lll_lock` comes to for a caller that no other thread disturbs: the lock is taken,
-- or the caller is in `lll_lock_wait`, which leaves its loop only after another thread has stored 0.
pub data Lock : Type 0 where
  taken : (futex : ℕ) → Lock
  waits : (futex : ℕ) → Lock

-- One round of the loop of `lll_lock_wait`: both compare-and-exchanges, and the call of
-- `lll_futex_wait` between them, which stores nothing.
unfoldable pub lll_lock_wait : ℕ → Lock
unfolding compare_and_exchange
lll_lock_wait futex =
    let (marked, old) = compare_and_exchange futex 2 1 in
    let (futex', found) = compare_and_exchange marked 2 0 in
    if found == 0 then Lock.taken futex' else Lock.waits futex'

unfoldable pub lll_lock : ℕ → Lock
unfolding lll_lock_wait compare_and_exchange
lll_lock futex =
    let (futex', found) = compare_and_exchange futex 1 0 in
    if found == 0 then Lock.taken futex' else lll_lock_wait futex'

-- `lll_unlock`: the new value, and whether `lll_futex_wake` is called.
unfoldable pub lll_unlock : ℕ → ℕ → Option (ℕ × Bool)
unfolding atomic_exchange
lll_unlock rounds futex = elim (atomic_exchange rounds futex 0) [
  | none ↦ none
  | some (futex', old) ↦ some (futex', ltb 1 old)
]

-- `_Bool OSSpinLockTry(lock)`: the `int` of `lll_trylock` as a truth value.
unfoldable pub os_spin_lock_try : ℕ → ℕ × Bool
unfolding lll_trylock
os_spin_lock_try lock = let (lock', found) = lll_trylock lock in (lock', not (found == 0))

unfoldable pub os_spin_lock_lock : ℕ → Lock
unfolding lll_lock
os_spin_lock_lock lock = lll_lock lock

unfoldable pub os_spin_lock_unlock : ℕ → ℕ → Option (ℕ × Bool)
unfolding lll_unlock
os_spin_lock_unlock rounds lock = lll_unlock rounds lock
