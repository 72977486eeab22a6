-- ===== src/MallocZone.antt =====
-- core/malloc_zone.c: the table of malloc zones and the calls of dlmalloc that they stand for.
-- dlmalloc is not modelled: a zone function returns the call that it makes.
pub mod Create
mod Runs
use lib_system_and_linker.Prelude.{
  ℕ, zero, suc, ◌+◌, ◌-◌, ◌*◌, ◌/◌, ◌%◌, ◌^◌, ◌==◌, not, ◌&&◌, if◌then◌else◌, Bool, true, false,
  Option, none, some, List, [], ◌∷◌, get_elem?, set, replicate,
}
use lib_system_and_linker.OsThread.Outcome.{
  Outcome, M, pure, ◌>>=◌, ◌>>◌, modify, gets, os_halt, lock_word, unlock_word,
}

-- `OSMemoryZone`; the six function pointers of `basic_zone` are set together or not at all.
pub record OsMemoryZone : Type 0 where
  pub has_impls : Bool
  pub memory_space : ℕ
  pub global_zone : Bool
  pub registred : Bool

abbrev pub max_zones : ℕ
max_zones = 1024

-- The file's globals. `default_zone` is an index, or `none` for NULL.
pub record Zones : Type 0 where
  pub malloc_lock : ℕ
  pub zones : List OsMemoryZone
  pub default_zone : Option ℕ

abbrev pub blank : OsMemoryZone
blank = record { has_impls = false; memory_space = 0; global_zone = false; registred = false }

-- At the start of the program.
unfoldable pub zones_init : Zones
zones_init = record { malloc_lock = 0; zones = replicate max_zones blank; default_zone = none }

unfoldable pub lock_malloc : M Zones (Unit {0})
unfolding lock_word
lock_malloc = lock_word (λ s. s.malloc_lock) (λ word s. record s { malloc_lock = word })

unfoldable pub unlock_malloc : M Zones (Unit {0})
unlock_malloc = unlock_word (λ s. s.malloc_lock) (λ word s. record s { malloc_lock = word })

-- The loop of `_OSGetFirstAvailableMemoryZone`: it does not stop at a hit. `i` is the index of the
-- head, and `osm` the last hit before it.
unfoldable pub last_available : List OsMemoryZone → ℕ → Option ℕ → Option ℕ
last_available [] i osm = osm
last_available (z ∷ zs) i osm = last_available zs (suc i) (if z.registred then osm else some i)

abbrev pub update_zone : ℕ → (OsMemoryZone → OsMemoryZone) → Zones → Zones
update_zone i f s = record s {
  zones = elim (get_elem? s.zones i) [ none ↦ s.zones | some z ↦ set s.zones i (f z) ];
}

unfoldable pub register_or_halt : Option ℕ → M Zones ℕ
register_or_halt none = os_halt
register_or_halt (some i) = do modify (update_zone i (λ z. record z { registred = true })); pure i

unfoldable pub os_get_first_available_memory_zone : M Zones ℕ
unfolding lock_malloc register_or_halt
os_get_first_available_memory_zone = do
  lock_malloc
  osm ← gets (λ s. last_available s.zones 0 none)
  i ← register_or_halt osm
  unlock_malloc
  pure i

-- `0xfee1dead`, which keeps `malloc_create_zone` from making an mspace.
abbrev pub no_mspace : ℕ
no_mspace = 0xfee1dead

-- `space` is what `create_mspace(start_size, FALSE)` returns.
unfoldable pub malloc_create_zone : ℕ → ℕ → M Zones ℕ
unfolding os_get_first_available_memory_zone
malloc_create_zone space flags = do
  osm ← os_get_first_available_memory_zone
  modify (
      update_zone osm (λ z. record z {
        has_impls = true;
        memory_space = if flags == no_mspace then z.memory_space else space;
      }))
  pure osm

unfoldable pub make_default : ℕ → M Zones (Unit {0})
make_default i =
    modify (λ s. record (update_zone i (λ z. record z { global_zone = true }) s) {
      default_zone = some i;
    })

unfoldable pub os_initialize_memory_zones : M Zones (Unit {0})
unfolding malloc_create_zone make_default
os_initialize_memory_zones s = elim s.default_zone [
  | none ↦ (do i ← malloc_create_zone 0 no_mspace; make_default i) s
  | some i ↦ Outcome.halts
]

-- `XXX_mspace_has_pointer`, a function of dlmalloc, is a parameter; so is the pointer's space.
module _ (has_pointer : ℕ → ℕ → Bool) where
  -- The loop of `malloc_zone_from_ptr`, which stops at the first hit.
  unfoldable pub zone_with_pointer : List OsMemoryZone → ℕ → ℕ → Option ℕ
  zone_with_pointer [] i ptr = none
  zone_with_pointer (z ∷ zs) i ptr =
      let rest = zone_with_pointer zs (suc i) ptr in
      if z.registred && not (z.memory_space == 0) && has_pointer z.memory_space ptr
      then some i
      else rest

  -- The zone's index; `none` is NULL, where no default zone has been made.
  unfoldable pub malloc_zone_from_ptr : ℕ → M Zones (Option ℕ)
  unfolding lock_malloc
  malloc_zone_from_ptr ptr = do
    lock_malloc
    osm ← gets (λ s. zone_with_pointer s.zones 0 ptr)
    unlock_malloc
    gets (λ s. elim osm [ none ↦ s.default_zone | some i ↦ some i ])

-- `malloc_good_size`: `PAGEALIGN` of a 32-bit size, with 4096 bytes to a page.
unfoldable pub malloc_good_size : ℕ → ℕ
malloc_good_size size = (size + 4095) % 2 ^ 32 / 4096 * 4096

-- A call of dlmalloc.
pub data DlCall : Type 0 where
  malloc : (size : ℕ) → DlCall
  calloc : (num_items size : ℕ) → DlCall
  valloc : (size : ℕ) → DlCall
  realloc : (ptr size : ℕ) → DlCall
  memalign : (alignment size : ℕ) → DlCall
  free : (ptr : ℕ) → DlCall
  mspace_malloc : (space size : ℕ) → DlCall
  mspace_calloc : (space num_items size : ℕ) → DlCall
  mspace_realloc : (space ptr size : ℕ) → DlCall
  mspace_memalign : (space alignment size : ℕ) → DlCall
  mspace_free : (space ptr : ℕ) → DlCall

-- A request to a zone: `malloc_zone_malloc` and the functions behind it.
pub data Request : Type 0 where
  malloc : (size : ℕ) → Request
  calloc : (num_items size : ℕ) → Request
  valloc : (size : ℕ) → Request
  realloc : (ptr size : ℕ) → Request
  memalign : (alignment size : ℕ) → Request
  free : (ptr : ℕ) → Request

-- The `Impl_malloc_zone_` functions; `none` is the halt of `Impl_malloc_zone_valloc`.
unfoldable pub impl_malloc_zone : OsMemoryZone → Request → Option DlCall
impl_malloc_zone osm (Request.malloc size) =
    some (if osm.global_zone then DlCall.malloc size else mspace_malloc osm.memory_space size)
impl_malloc_zone osm (Request.calloc num_items size) = some (
    if osm.global_zone
    then DlCall.calloc num_items size
    else mspace_calloc osm.memory_space num_items size)
impl_malloc_zone osm (Request.valloc size) =
    if osm.global_zone then some (DlCall.valloc size) else none
impl_malloc_zone osm (Request.realloc ptr size) =
    some (
      if osm.global_zone then DlCall.realloc ptr size else mspace_realloc osm.memory_space ptr size)
impl_malloc_zone osm (Request.memalign alignment size) = some (
    if osm.global_zone
    then DlCall.memalign alignment size
    else mspace_memalign osm.memory_space alignment size)
impl_malloc_zone osm (Request.free ptr) =
    some (if osm.global_zone then DlCall.free ptr else mspace_free osm.memory_space ptr)
