-- ===== src/OsThread/Runs.antt =====
-- Runs of core/OSThread.c at concrete values.
use lib_system_and_linker.Prelude.{
  ℕ, suc, ◌+◌, ◌≡◌, ◌⊎◌, refl, none, List, [], ◌∷◌, arith, drop, length,
}
use lib_system_and_linker.LowLevelLock.{lll_unlock}
use lib_system_and_linker.OsThread.Outcome.{unlock_word, done, halts}
use lib_system_and_linker.OsThread.Tls.{
  last_with_key, TlsEntry, Tls, value_of, first_free, tls_uk_start, pthread_getspecific,
  pthread_setspecific, pthread_key_create,
}
use lib_system_and_linker.OsThread.Tls.Slots.{WellKeyed}
use lib_system_and_linker.OsThread.Tls.Keys.{Created, getspecific-setspecific, key_create_fresh}
use lib_system_and_linker.OsThread.Mutex.{Mutexes, Signatures}
use lib_system_and_linker.OsThread.Mutex.Recursive.{
  IsHeld, lock_times, unlock_times, unlock_times-lock_times,
}
use lib_system_and_linker.OsThread.Once.{Once, once_sig_init, once_again, once_runs_once}
use lib_system_and_linker.OsThread.Create.{
  tls_size, stack_size_of, get_tls_map, pthread_create, create_layout,
}

abbrev unused : TlsEntry
unused = record { key = 0; val = 0; destr = 0; allocated = 0 }

abbrev used : ℕ → ℕ → TlsEntry
used key val = record { key = key; val = val; destr = 0; allocated = 1 }

-- Keys 3 and 10 are in use; 11 is free.
abbrev small_table : List TlsEntry
small_table =
    unused
    ∷ unused
    ∷ unused
    ∷ used 3 30
    ∷ unused
    ∷ unused
    ∷ unused
    ∷ unused
    ∷ unused
    ∷ unused
    ∷ used 10 70
    ∷ unused
    ∷ []

abbrev small : Tls
small = record { current = 0x8000; tls_lock = 0; list = small_table }

small_table-WellKeyed : WellKeyed 0 small_table
small_table-WellKeyed = omega arith

reads_last_entry_with_key : pthread_getspecific 10 small ≡ done 70 small
unfolding pthread_getspecific value_of last_with_key unlock_word lll_unlock
reads_last_entry_with_key = refl

getspecific-setspecific_example :
    (t : Tls) × (pthread_setspecific 3 5 small ≡ done 0 t)
    × (pthread_getspecific 3 t ≡ done 5 t)
    × WellKeyed 0 t.list
    × (length t.list ≡ 12)
getspecific-setspecific_example =
    getspecific-setspecific small 3 5 refl small_table-WellKeyed (omega arith)
      (used 3 30, refl, omega arith) 2

key_create_fresh_example :
    ((pthread_key_create 9 small ≡ halts)
      × (first_free (drop tls_uk_start small_table) tls_uk_start ≡ none))
    ⊎ ((r : ℕ) × (t : Tls) × (pthread_key_create 9 small ≡ done r t) × Created small r t)
key_create_fresh_example = key_create_fresh small 9 refl (omega arith) small_table-WellKeyed

abbrev sdk : Signatures
sdk = record { recursive_sig_init = 0x32AAABA2; errorcheck_sig_init = 0x32AAABA1 }

-- A mutex of the given type that thread 7 has initialised.
abbrev fresh : ℕ → Mutexes
fresh type = record {
  mutex = record { sig = 0; type = type; count = 0; owner = 7; initialized = 0; lll = 0 };
  recursive_op_lock = 0;
}

unlock_times-lock_times_example :
    (t : Mutexes) × (lock_times sdk 7 3 (fresh 2) ≡ done tt t)
    × IsHeld 7 3 t
    × (unlock_times sdk 7 3 t ≡ done tt (fresh 2))
unlock_times-lock_times_example =
    unlock_times-lock_times sdk 7 (omega arith) (omega arith) 3 0 (fresh 2)
      (record { started = refl; kind = refl; mine = refl; depth = refl; word = refl; idle = refl })
      (omega arith)

abbrev garbage : Mutexes
garbage = record (fresh 0) {
  mutex = record { sig = 0; type = 0; count = 5; owner = 0; initialized = 0; lll = 9 };
}

abbrev fresh_once : Once ℕ
fresh_once = record { sig = once_sig_init; control = 0; world = 4 }

once_runs_once_example :
    once_again suc 3 fresh_once ≡ done 0 (record { sig = 0; control = 0; world = 5 })
once_runs_once_example = once_runs_once suc 2 fresh_once refl refl

create_layout_example :
    let new = (pthread_create 68 (λ _. 0x10000) (λ _ _. 12) none 0x400 0).0 in
    (new.requested ≡ 68 + tls_size + 65536)
    × (get_tls_map 68 new.thread ≡ new.thread + 68)
    × (new.cleared_from ≡ get_tls_map 68 new.thread + tls_size)
    × (new.cleared_from + stack_size_of none ≡ new.top_stack)
    × (new.cleared_size ≡ stack_size_of none)
    × (new.top_stack ≡ new.thread + new.requested)
    × (new.child_stack ≡ new.top_stack)
create_layout_example =
    create_layout 68 (λ _. 0x10000) (λ _ _. 12) none 0x400 0 (omega arith) (omega arith)
