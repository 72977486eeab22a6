-- ===== src/OsThread/Tls/Keys.antt =====
-- Properties of the thread-specific keys of core/OSThread.c.
use lib_system_and_linker.Prelude.{
  suc, if◌then◌else◌, ◌==◌, true, false, ℕ_discrete, ℕ, ◌+◌, ◌<◌, ◌≤◌, ◌≡◌, ◌≢◌, ◌⊎◌, inl, inr,
  refl, ◌∙◌, none, some, List, arith, get_elem?, set, drop, length, length-set, get_elem?-set_self,
  get_elem?-set_ne, get_elem?-lt, get_elem?-drop, Option-cases,
}
use lib_system_and_linker.OsThread.Outcome.{done, halts}
use lib_system_and_linker.OsThread.Tls.{
  TlsEntry, Tls, first_free, value_of, with_value, pthread_getspecific, pthread_setspecific,
  pthread_key_create, allot, tls_uk_start,
}
use lib_system_and_linker.OsThread.Tls.Slots.{
  in_use, slot_value, value_of-slot_value, WellKeyed, IsAllocated, last_with_key-IsAllocated,
  WellKeyed-set, WellKeyed-get, first_free-some,
}
use lib_system_and_linker.OsThread.Tls.Calls.{
  pthread_getspecific_lem, pthread_setspecific_lem, pthread_key_create-some,
  pthread_key_create-none,
}

module _ (list : List TlsEntry) (w : WellKeyed 0 list) where
  value_of-IsAllocated :
      (k : ℕ) (e : TlsEntry)
      → 0 < k
      → get_elem? list k ≡ some e
      → e.allocated ≢ 0
      → value_of list k ≡ e.val
  unfolding value_of
  value_of-IsAllocated k e p g a = ground (arith, last_with_key-IsAllocated list k w p (e, g, a))

  with_value-IsAllocated :
      (k ptr : ℕ) (e : TlsEntry)
      → 0 < k
      → get_elem? list k ≡ some e
      → e.allocated ≢ 0
      → with_value list k ptr ≡ set list k (record e { val = ptr })
  unfolding with_value
  with_value-IsAllocated k ptr e p g a =
      ground (arith, last_with_key-IsAllocated list k w p (e, g, a))

-- After a store of an entry at `k`, the key `k` has that entry's value and the others keep theirs.
value_of-set :
    (list : List TlsEntry) (k : ℕ) (e : TlsEntry)
    → WellKeyed 0 list
    → WellKeyed 0 (set list k e)
    → k < length list
    → e.allocated ≢ 0
    → (j : ℕ)
    → value_of (set list k e) (suc j) ≡ (if suc j == k then e.val else value_of list (suc j))
value_of-set list k e w w' h a j = elim (ℕ_discrete k (suc j)) [
  | yes q ↦ ground (arith, new, get_elem?-set_self list k e h)
  | no q ↦ ground (arith, new, old, get_elem?-set_ne list k (suc j) e q)
]
  where
    new : value_of (set list k e) (suc j) ≡ slot_value (get_elem? (set list k e) (suc j))
    new = value_of-slot_value (set list k e) (suc j) w' (omega arith)

    old : value_of list (suc j) ≡ slot_value (get_elem? list (suc j))
    old = value_of-slot_value list (suc j) w (omega arith)

-- With the lock free, a well-keyed table and a key in use other than 0, `pthread_setspecific`
-- returns 0; then `pthread_getspecific` returns the value that was stored for this key and the old
-- value for every other key but 0, and the table keeps its length and is well keyed.
pub getspecific-setspecific :
    (s : Tls) (k ptr : ℕ)
    → s.tls_lock ≡ 0
    → WellKeyed 0 s.list
    → 0 < k
    → IsAllocated s.list k
    → (j : ℕ)
    → (t : Tls) × (pthread_setspecific k ptr s ≡ done 0 t)
      × (pthread_getspecific (suc j) t
          ≡ done (if suc j == k then ptr else value_of s.list (suc j)) t)
      × WellKeyed 0 t.list
      × (length t.list ≡ length s.list)
getspecific-setspecific s k ptr free w p (e, g, a) j = (
  record s { tls_lock = 0; list = list' },
  pthread_setspecific_lem s free k ptr ∙ rw (with_value-IsAllocated s.list w k ptr e p g a),
  pthread_getspecific_lem (record s { tls_lock = 0; list = list' }) refl (suc j)
      ∙ rw (value_of-set s.list k e' w w' (get_elem?-lt s.list k e g) a j),
  w',
  length-set s.list k e',
)
  where
    e' : TlsEntry
    e' = record e { val = ptr }

    list' : List TlsEntry
    list' = set s.list k e'

    w' : WellKeyed 0 list'
    w' = WellKeyed-set s.list 0 k e' w (WellKeyed-get s.list 0 k e w g)

-- What a successful `pthread_key_create` leaves: the key was not in use and is not reserved, it is
-- in use now with the value NULL, and the other keys but 0 keep their values.
pub record Created (s : Tls) (r : ℕ) (t : Tls) : Type 0 where
  pub unused : in_use s.list r ≡ false
  pub not_reserved : tls_uk_start ≤ r
  pub used : in_use t.list r ≡ true
  pub values :
      (j : ℕ) → value_of t.list (suc j) ≡ (if suc j == r then 0 else value_of s.list (suc j))
  pub keyed : WellKeyed 0 t.list
  pub unlocked : t.tls_lock ≡ 0

allot-Created :
    (s : Tls) (destr d : ℕ) (e : TlsEntry)
    → WellKeyed 0 s.list
    → get_elem? s.list (tls_uk_start + d) ≡ some e
    → e.allocated ≡ 0
    → Created s (tls_uk_start + d) (allot (tls_uk_start + d) destr (record s { tls_lock = 0 }))
allot-Created s destr d e w g a = record {
  unused = ground arith;
  not_reserved = omega arith;
  used = ground (arith, get_elem?-set_self s.list r e' (get_elem?-lt s.list r e g));
  values = value_of-set s.list r e' w w' (get_elem?-lt s.list r e g) (omega arith);
  keyed = w';
  unlocked = refl;
}
  where
    r : ℕ
    r = tls_uk_start + d

    e' : TlsEntry
    e' = record { key = r; val = 0; destr = destr; allocated = 1 }

    w' : WellKeyed 0 (set s.list r e')
    w' = WellKeyed-set s.list 0 r e' w (ground arith)

-- With the lock free, a current thread and a well-keyed table, `pthread_key_create` either halts,
-- where no entry from the tenth on is unused, or returns a key that was unused and not reserved,
-- now in use with the value NULL, and leaves the values of the other keys but 0.
pub key_create_fresh :
    (s : Tls) (destr : ℕ)
    → s.tls_lock ≡ 0
    → s.current ≢ 0
    → WellKeyed 0 s.list
    → ((pthread_key_create destr s ≡ halts)
        × (first_free (drop tls_uk_start s.list) tls_uk_start ≡ none))
      ⊎ ((r : ℕ) × (t : Tls) × (pthread_key_create destr s ≡ done r t) × Created s r t)
key_create_fresh s destr free running w =
    elim (Option-cases (first_free (drop tls_uk_start s.list) tls_uk_start)) [
      | inl full ↦ inl (pthread_key_create-none s free running destr full, full)
      | inr (r, found) ↦
          let (d, e, q, g, a) = first_free-some (drop tls_uk_start s.list) tls_uk_start r found in
          inr (
            tls_uk_start + d,
            _,
            pthread_key_create-some s free running destr (tls_uk_start + d) (rw (← q) found),
            allot-Created s destr d e w (rw get_elem?-drop at g) a,
          )
    ]
