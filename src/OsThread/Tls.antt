-- ===== src/OsThread/Tls.antt =====
-- Thread-local storage in core/OSThread.c: the table of the current thread, under `tls_lock`.
pub mod Slots
pub mod Calls
pub mod Keys
pub mod Missing
use lib_system_and_linker.Prelude.{
  ℕ, zero, suc, ◌==◌, if◌then◌else◌, true, false, Option, none, some, List, [], ◌∷◌, get_elem?, set,
  drop,
}
use lib_system_and_linker.OsThread.Outcome.{
  Outcome, M, pure, ◌>>=◌, ◌>>◌, modify, gets, os_halt, lock_word, unlock_word,
}

-- `OSTlsEntry`. A pointer is a number, with 0 for NULL.
pub record TlsEntry : Type 0 where
  pub key : ℕ
  pub val : ℕ
  pub destr : ℕ
  pub allocated : ℕ

-- `OS_TLS_COUNT` and `OS_TLS_UK_START`.
abbrev pub tls_count : ℕ
tls_count = 100

abbrev pub tls_uk_start : ℕ
tls_uk_start = 10

-- `current` is `OSGetCurrentThread()`, and `list` the table behind that thread's header.
pub record Tls : Type 0 where
  pub current : ℕ
  pub tls_lock : ℕ
  pub list : List TlsEntry

unfoldable pub lock_tls : M Tls (Unit {0})
unfolding lock_word
lock_tls = lock_word (λ s. s.tls_lock) (λ word s. record s { tls_lock = word })

unfoldable pub unlock_tls : M Tls (Unit {0})
unlock_tls = unlock_word (λ s. s.tls_lock) (λ word s. record s { tls_lock = word })

-- The loop of `pthread_key_init_np`, from `i` on with the rounds that are left.
unfoldable pub index_of_key : ℕ → ℕ → ℕ → Option ℕ
index_of_key zero i key = none
index_of_key (suc rounds) i key =
    let rest = index_of_key rounds (suc i) key in if key == i then some i else rest

-- The loop of `pthread_getspecific` and `pthread_setspecific`: it does not stop at a hit, so the
-- last entry with the key counts. `i` is the index of the head of the list.
unfoldable pub last_with_key : List TlsEntry → ℕ → ℕ → Option ℕ → Option ℕ
last_with_key [] i key entry = entry
last_with_key (e ∷ es) i key entry =
    last_with_key es (suc i) key (if e.key == key then some i else entry)

-- The loop of `pthread_key_create`.
unfoldable pub first_free : List TlsEntry → ℕ → Option ℕ
first_free [] i = none
first_free (e ∷ es) i =
    let rest = first_free es (suc i) in if e.allocated == 0 then some i else rest

-- The four stores that give entry `i` to a key.
abbrev pub allot : ℕ → ℕ → Tls → Tls
allot i destr s = record s {
  list = set s.list i (record { key = i; val = 0; destr = destr; allocated = 1 });
}

-- `entry->val = ptr`
abbrev pub store_val : List TlsEntry → ℕ → ℕ → List TlsEntry
store_val list i ptr = elim (get_elem? list i) [
  | none ↦ list
  | some e ↦ set list i (record e { val = ptr })
]

abbrev pub load_val : List TlsEntry → ℕ → ℕ
load_val list i = elim (get_elem? list i) [ none ↦ 0 | some e ↦ e.val ]

-- What `pthread_getspecific` returns for a key.
unfoldable pub value_of : List TlsEntry → ℕ → ℕ
value_of list key = elim (last_with_key list 0 key none) [ none ↦ 0 | some i ↦ load_val list i ]

unfoldable pub with_value : List TlsEntry → ℕ → ℕ → List TlsEntry
with_value list key ptr = elim (last_with_key list 0 key none) [
  | none ↦ list
  | some i ↦ store_val list i ptr
]

unfoldable pub allot_or_halt : Option ℕ → ℕ → M Tls ℕ
allot_or_halt none destr = os_halt
allot_or_halt (some i) destr = do modify (allot i destr); pure i

unfoldable pub check_current : M Tls (Unit {0})
check_current s = elim (s.current == 0) [ true ↦ Outcome.halts | false ↦ Outcome.done tt s ]

unfoldable pub pthread_key_init_np : ℕ → ℕ → M Tls (Unit {0})
unfolding check_current lock_tls unlock_tls allot_or_halt index_of_key
pthread_key_init_np key dest = do
  check_current
  lock_tls
  rk ← allot_or_halt (index_of_key tls_count 0 key) dest
  unlock_tls

unfoldable pub pthread_getspecific : ℕ → M Tls ℕ
unfolding lock_tls unlock_tls
pthread_getspecific key = do lock_tls; ret ← gets (λ s. value_of s.list key); unlock_tls; pure ret

-- The result is the key that `*key` receives.
unfoldable pub pthread_key_create : ℕ → M Tls ℕ
unfolding lock_tls unlock_tls allot_or_halt check_current
pthread_key_create destr = do
  check_current
  lock_tls
  entry ← gets (λ s. first_free (drop tls_uk_start s.list) tls_uk_start)
  rk ← allot_or_halt entry destr
  unlock_tls
  pure rk

unfoldable pub pthread_setspecific : ℕ → ℕ → M Tls ℕ
unfolding lock_tls unlock_tls
pthread_setspecific key ptr = do
  lock_tls
  modify (λ s. record s { list = with_value s.list key ptr })
  unlock_tls
  pure 0
