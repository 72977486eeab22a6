-- ===== src/Linker/Bind/Apply/Stores.antt =====
-- What `bind` of core/lnk_macho.cpp leaves in memory.
use lib_system_and_linker.Prelude.{
  ℕ, ◌+◌, ◌/◌, ◌%◌, ◌^◌, ◌<◌, ◌≤◌, ◌≡◌, ◌≢◌, ◌⊎◌, refl, false, some, List, arith,
}
use lib_system_and_linker.Linker.Stream.{done}
use lib_system_and_linker.Linker.Rebase.{Memory, load_word, store_word, word_mod}
use lib_system_and_linker.Linker.Resolve.{Resolved, resolve}
use lib_system_and_linker.Linker.Bind.{Request}
use lib_system_and_linker.Linker.Bind.Apply.{
  BindType, pointer, text_absolute32, text_pcrel32, bad, Linker, World, out_of_range, relative,
  update, bind,
}

store-byte0 : (m : Memory) (a v : ℕ) → store_word m a v a ≡ v % 2 ^ 8
unfolding store_word
store-byte0 m a v = ground arith

store-byte1 : (m : Memory) (a v : ℕ) → store_word m a v (a + 1) ≡ v / 2 ^ 8 % 2 ^ 8
unfolding store_word
store-byte1 m a v = ground arith

store-byte2 : (m : Memory) (a v : ℕ) → store_word m a v (a + 2) ≡ v / 2 ^ 16 % 2 ^ 8
unfolding store_word
store-byte2 m a v = ground arith

store-byte3 : (m : Memory) (a v : ℕ) → store_word m a v (a + 3) ≡ v / 2 ^ 24 % 2 ^ 8
unfolding store_word
store-byte3 m a v = ground arith

pub load-store : (m : Memory) (a v : ℕ) → v < word_mod → load_word (store_word m a v) a ≡ v
load-store m a v h =
    omega (arith, store-byte0 m a v, store-byte1 m a v, store-byte2 m a v, store-byte3 m a v)

pub store-outside : (m : Memory) (a v x : ℕ) → (x < a) ⊎ (a + 4 ≤ x) → store_word m a v x ≡ m x
unfolding store_word
store-outside m a v x h = ground (arith, h)

-- The address that a word at a place refers to: itself, or relative to the place behind it.
abbrev pub refers_to : BindType → ℕ → ℕ → ℕ
refers_to text_pcrel32 address word = (address + 4 + word) % word_mod
refers_to _ address word = word

update-refers :
    (t : BindType) (address value : ℕ) (m : Memory)
    → t ≢ bad
    → address < word_mod
    → value < word_mod
    → (m' : Memory) × (update t address value m ≡ done m')
      × (refers_to t address (load_word m' address) ≡ value)
      × ((x : ℕ) → (x < address) ⊎ (address + 4 ≤ x) → m' x ≡ m x)
unfolding update
update-refers pointer address value m known a v =
    (store_word m address value, refl, load-store m address value v, store-outside m address value)
update-refers text_absolute32 address value m known a v =
    (store_word m address value, refl, load-store m address value v, store-outside m address value)
update-refers text_pcrel32 address value m known a v = (
  store_word m address (relative address value),
  refl,
  rw (load-store m address (relative address value) (omega arith)) (omega (arith, v)),
  store-outside m address (relative address value),
)
update-refers bad address value m known a v = absurd (known refl)

bind-resolved :
    (l : Linker) (r : Request) (w : World) (name : List ℕ) (found : Resolved) (m : Memory)
    → r.name ≡ some name
    → out_of_range l r.ordinal ≡ false
    → resolve l.images name l.depth l.chain w.unresolved_count ≡ done found
    → update (l.type_of r.type) r.address ((found.address + r.addend) % word_mod) w.memory ≡ done m
    → bind l r w ≡ done (record { memory = m; unresolved_count = found.unresolved_count })
unfolding bind
bind-resolved l r w name found m n o f u = ground (arith, o, n, f, u)

-- Where the ordinal is in range, the type is known, the address is that of a word, and `resolve`
-- answers for the name: `bind` leaves a word at the address that refers to the symbol's address plus the
-- addend, modulo 2^32, no other byte is changed, and the count of unresolved symbols is that of `resolve`.
pub bind_stores :
    (l : Linker) (r : Request) (w : World) (name : List ℕ) (found : Resolved)
    → r.name ≡ some name
    → out_of_range l r.ordinal ≡ false
    → l.type_of r.type ≢ bad
    → r.address < word_mod
    → resolve l.images name l.depth l.chain w.unresolved_count ≡ done found
    → (m : Memory) × (bind l r w
        ≡ done (record { memory = m; unresolved_count = found.unresolved_count }))
      × (refers_to (l.type_of r.type) r.address (load_word m r.address)
          ≡ (found.address + r.addend) % word_mod)
      × ((x : ℕ) → (x < r.address) ⊎ (r.address + 4 ≤ x) → m x ≡ w.memory x)
bind_stores l r w name found n o t a f =
    let (m, u, refers, others) =
      update-refers (l.type_of r.type) r.address ((found.address + r.addend) % word_mod) w.memory t
        a (omega arith) in
    (m, bind-resolved l r w name found m n o f u, refers, others)
