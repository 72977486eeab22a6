-- ===== src/OsThread/Tls/Slots.antt =====
-- The tables of core/OSThread.c's thread-local storage: which entry a key finds.
use lib_system_and_linker.Prelude.{
  Bool, false, not, ℕ, zero, suc, ◌+◌, ◌<◌, ◌≤◌, ◌==◌, ◌≡◌, ◌≢◌, ◌⊎◌, inl, inr, refl, if◌then◌else◌,
  Option, none, some, List, [], ◌∷◌, get_elem?, set, arith,
}
use lib_system_and_linker.OsThread.Tls.{value_of, TlsEntry, last_with_key, first_free, index_of_key}

-- An entry at index `i` that is in use has the key `i`; one that is not has the key 0.
abbrev pub WellKeyed : ℕ → List TlsEntry → Type 0
WellKeyed i [] = Unit
WellKeyed i (e ∷ es) = (e.key ≡ (if e.allocated == 0 then 0 else i)) × WellKeyed (suc i) es

abbrev pub IsAllocated : List TlsEntry → ℕ → Type 0
IsAllocated list k = (e : TlsEntry) × (get_elem? list k ≡ some e) × (e.allocated ≢ 0)

-- A key below the head's index is found nowhere.
pub last_with_key-below :
    (es : List TlsEntry) (i k : ℕ) (entry : Option ℕ)
    → WellKeyed i es
    → 0 < k
    → k < i
    → last_with_key es i k entry ≡ entry
unfolding last_with_key
last_with_key-below [] i k entry w p h = refl
last_with_key-below (e ∷ es) i k entry w p h =
    ground (arith, last_with_key-below es (suc i) k entry)

last_with_key-at :
    (es : List TlsEntry) (i d k : ℕ) (entry : Option ℕ) (e : TlsEntry)
    → WellKeyed i es
    → 0 < k
    → k ≡ i + d
    → get_elem? es d ≡ some e
    → e.allocated ≢ 0
    → last_with_key es i k entry ≡ some k
unfolding last_with_key
last_with_key-at [] i d k entry e w p h g a = cc
last_with_key-at (x ∷ es) i zero k entry e w p h g a =
    ground (arith, last_with_key-below es (suc i) k (some i))
last_with_key-at (x ∷ es) i (suc d) k entry e w p h g a =
    ground (arith, last_with_key-at es (suc i) d k entry e)

-- A key in use, other than 0, finds its own entry.
pub last_with_key-IsAllocated :
    (list : List TlsEntry) (k : ℕ)
    → WellKeyed 0 list
    → 0 < k
    → IsAllocated list k
    → last_with_key list 0 k none ≡ some k
last_with_key-IsAllocated list k w p (e, g, a) =
    last_with_key-at list 0 k k none e w p (omega arith) g a

allocated_cases : (x : TlsEntry) → (x.allocated ≡ 0) ⊎ (x.allocated ≢ 0)
allocated_cases x = ground arith

-- Entry `k` is there and in use.
abbrev pub in_use : List TlsEntry → ℕ → Bool
in_use list k = elim (get_elem? list k) [ none ↦ false | some e ↦ not (e.allocated == 0) ]

last_with_key-unused :
    (es : List TlsEntry) (i d k : ℕ) (entry : Option ℕ)
    → WellKeyed i es
    → 0 < k
    → k ≡ i + d
    → in_use es d ≡ false
    → last_with_key es i k entry ≡ entry
unfolding last_with_key
last_with_key-unused [] i d k entry w p h u = refl
last_with_key-unused (x ∷ es) i zero k entry w p h u =
    ground (arith, last_with_key-below es (suc i) k entry)
last_with_key-unused (x ∷ es) i (suc d) k entry w p h u =
    ground (arith, last_with_key-unused es (suc i) d k entry w.1 p (omega arith) u)

-- A key other than 0 that is not in use finds no entry.
pub last_with_key-none :
    (list : List TlsEntry) (k : ℕ)
    → WellKeyed 0 list
    → 0 < k
    → in_use list k ≡ false
    → last_with_key list 0 k none ≡ none
last_with_key-none list k w p u = last_with_key-unused list 0 k k none w p (omega arith) u

-- What `pthread_getspecific` reads in a well-keyed table: the value of the entry at the key itself,
-- or NULL where that is not in use.
abbrev pub slot_value : Option TlsEntry → ℕ
slot_value none = 0
slot_value (some e) = if e.allocated == 0 then 0 else e.val

slot_cases : (list : List TlsEntry) (k : ℕ) → (in_use list k ≡ false) ⊎ IsAllocated list k
slot_cases list k = slot_of (get_elem? list k) refl
  where
    slot_of :
        (o : Option TlsEntry) → get_elem? list k ≡ o → (in_use list k ≡ false) ⊎ IsAllocated list k
    slot_of none h = inl (ground arith)
    slot_of (some e) h = elim (allocated_cases e) [
      | inl a ↦ inl (ground arith)
      | inr a ↦ inr (e, h, a)
    ]

pub value_of-slot_value :
    (list : List TlsEntry) (k : ℕ)
    → WellKeyed 0 list
    → 0 < k
    → value_of list k ≡ slot_value (get_elem? list k)
unfolding value_of
value_of-slot_value list k w p = elim (slot_cases list k) [
  | inl u ↦ ground (arith, last_with_key-none list k w p u)
  | inr (e, g, a) ↦ ground (arith, last_with_key-IsAllocated list k w p (e, g, a))
]

-- A store at an index of an entry that fits there keeps the table well keyed.
pub WellKeyed-set :
    (es : List TlsEntry) (i d : ℕ) (e : TlsEntry)
    → WellKeyed i es
    → e.key ≡ (if e.allocated == 0 then 0 else (i + d))
    → WellKeyed i (set es d e)
WellKeyed-set [] i d e w h = tt
WellKeyed-set (x ∷ es) i zero e w h = (ground arith, w.1)
WellKeyed-set (x ∷ es) i (suc d) e w h = (w.0, WellKeyed-set es (suc i) d e w.1 (ground arith))

pub WellKeyed-get :
    (es : List TlsEntry) (i d : ℕ) (e : TlsEntry)
    → WellKeyed i es
    → get_elem? es d ≡ some e
    → e.key ≡ (if e.allocated == 0 then 0 else (i + d))
WellKeyed-get [] i d e w g = cc
WellKeyed-get (x ∷ es) i zero e w g = ground arith
WellKeyed-get (x ∷ es) i (suc d) e w g = ground (arith, WellKeyed-get es (suc i) d e)

-- What a scan finds depends on the keys alone.
pub last_with_key-set_same :
    (es : List TlsEntry) (i d k : ℕ) (entry : Option ℕ) (x e : TlsEntry)
    → get_elem? es d ≡ some x
    → x.key ≡ e.key
    → last_with_key (set es d e) i k entry ≡ last_with_key es i k entry
unfolding last_with_key
last_with_key-set_same [] i d k entry x e g h = refl
last_with_key-set_same (y ∷ es) i zero k entry x e g h = ground arith
last_with_key-set_same (y ∷ es) i (suc d) k entry x e g h =
    last_with_key-set_same es (suc i) d k (if y.key == k then some i else entry) x e g h

-- The entry that `pthread_key_create` takes: the first one, from the head on, not in use.
pub first_free-some :
    (es : List TlsEntry) (i r : ℕ)
    → first_free es i ≡ some r
    → (d : ℕ) × (e : TlsEntry) × (r ≡ i + d) × (get_elem? es d ≡ some e) × (e.allocated ≡ 0)
unfolding first_free
first_free-some [] i r h = cc
first_free-some (x ∷ es) i r h = elim (allocated_cases x) [
  | inl old ↦ (0, x, ground arith, refl, old)
  | inr new ↦
      let (d, e, q, g, a) = first_free-some es (suc i) r (ground arith) in
      (suc d, e, omega arith, g, a)
]

-- `pthread_key_init_np` finds every index below the size of the table, and no other.
pub index_of_key-lt :
    (rounds i key : ℕ) → i ≤ key → key < i + rounds → index_of_key rounds i key ≡ some key
unfolding index_of_key
index_of_key-lt zero i key h k = absurd (omega arith)
index_of_key-lt (suc rounds) i key h k = ground (arith, index_of_key-lt rounds (suc i) key)

pub index_of_key-none : (rounds i key : ℕ) → i + rounds ≤ key → index_of_key rounds i key ≡ none
unfolding index_of_key
index_of_key-none zero i key h = refl
index_of_key-none (suc rounds) i key h = ground (arith, index_of_key-none rounds (suc i) key)
