-- ===== src/OsThread/Tls/Missing.antt =====
-- Keys of core/OSThread.c that no entry is in use for, and the key 0.
use lib_system_and_linker.Prelude.{
  false, ℕ, zero, suc, ◌+◌, ◌<◌, ◌==◌, ◌≡◌, ap, ◌∙◌, if◌then◌else◌, Option, none, some, List, [],
  ◌∷◌, arith, get_elem?, set, length,
}
use lib_system_and_linker.OsThread.Outcome.{done}
use lib_system_and_linker.OsThread.Tls.{
  TlsEntry, Tls, last_with_key, value_of, with_value, pthread_getspecific, pthread_setspecific,
}
use lib_system_and_linker.OsThread.Tls.Slots.{WellKeyed, in_use, last_with_key-none}
use lib_system_and_linker.OsThread.Tls.Calls.{pthread_getspecific_lem, pthread_setspecific_lem}

-- With the lock free and a well-keyed table, a key other than 0 that is not in use reads as NULL;
-- a store under it changes nothing, and returns 0 like a store that took place.
pub unused_key :
    (s : Tls) (k ptr : ℕ)
    → s.tls_lock ≡ 0
    → WellKeyed 0 s.list
    → 0 < k
    → in_use s.list k ≡ false
    → (pthread_getspecific k s ≡ done 0 s) × (pthread_setspecific k ptr s ≡ done 0 s)
unused_key s k ptr free w p u = (
  pthread_getspecific_lem s free k ∙ rw free_lock (ap (λ v. done v s) read),
  pthread_setspecific_lem s free k ptr ∙ cc (written, free_lock),
)
  where
    open s use {tls_lock}

    free_lock : record s { tls_lock = 0 } ≡ s
    free_lock = ground arith

    found : last_with_key s.list 0 k none ≡ none
    found = last_with_key-none s.list k w p u

    read : value_of s.list k ≡ 0
    read = unfold value_of in ground (arith, found)

    written : with_value s.list k ptr ≡ s.list
    written = unfold with_value in ground (arith, found)

last_with_key-zero :
    (es : List TlsEntry) (i d : ℕ) (entry : Option ℕ) (e : TlsEntry)
    → WellKeyed i es
    → get_elem? es d ≡ some e
    → e.allocated ≡ 0
    → length es ≡ suc d
    → last_with_key es i 0 entry ≡ some (i + d)
unfolding last_with_key
last_with_key-zero [] i d entry e w g a h = cc
last_with_key-zero (x ∷ []) i zero entry e w g a h = ground arith
last_with_key-zero (x ∷ y ∷ es) i zero entry e w g a h = absurd (omega arith)
last_with_key-zero (x ∷ es) i (suc d) entry e w g a h =
    ground (arith, last_with_key-zero es (suc i) d (if x.key == 0 then some i else entry) e)

-- The key 0 stands in every unused entry, so while the last entry of the table is unused, a value
-- stored under the key 0 goes into that entry, also where entry 0 was given to the key 0.
pub key_zero_last_entry :
    (s : Tls) (d ptr : ℕ) (e : TlsEntry)
    → s.tls_lock ≡ 0
    → WellKeyed 0 s.list
    → get_elem? s.list d ≡ some e
    → e.allocated ≡ 0
    → length s.list ≡ suc d
    → pthread_setspecific 0 ptr s
      ≡ done 0 (record s { tls_lock = 0; list = set s.list d (record e { val = ptr }) })
unfolding with_value
key_zero_last_entry s d ptr e free w g a h =
    pthread_setspecific_lem s free 0 ptr
    ∙ ground (arith, last_with_key-zero s.list 0 d none e w g a h)
