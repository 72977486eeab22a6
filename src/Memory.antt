-- ===== src/Memory.antt =====
-- core/mem.c and core/mmap.c: the break of the data segment, and mappings.
mod Runs
pub mod Break
pub mod Pages
use lib_system_and_linker.Prelude.{
  ℕ, ◌+◌, ◌*◌, ◌/◌, ◌%◌, ◌^◌, ◌-◌, ◌==◌, ltb, if◌then◌else◌, List, [], ◌∷◌,
}
use lib_system_and_linker.Termios.Words.{Word, word_of, has, or_word}

-- `__Break` and `errno`.
pub record Memory : Type 0 where
  pub current_break : ℕ
  pub errno : ℕ

-- -1 as a 32-bit word: a failure.
abbrev pub minus_one : ℕ
minus_one = 2 ^ 32 - 1

-- `(b + SBRK_ALIGN - 1) & ~(SBRK_ALIGN - 1)`, with 32 for SBRK_ALIGN.
abbrev pub align : ℕ → ℕ
align b = (b + 31) % 2 ^ 32 / 32 * 32

-- `brk`, where `kernel` is the answer of `brk$LINUX` to a request.
unfoldable pub brk : (ℕ → ℕ) → ℕ → Memory → ℕ × Memory
brk kernel end_data s =
    if kernel end_data == end_data
    then (0, record s { current_break = kernel end_data })
    else (minus_one, s)

-- The first lines of `sbrk`: the break as it is, or asked for.
abbrev pub known_break : (ℕ → ℕ) → Memory → ℕ
known_break kernel s = if s.current_break == 0 then kernel 0 else s.current_break

-- The lines behind them; `enomem` is ENOMEM of the SDK. A negative increment is its 32-bit word.
unfoldable pub sbrk_from : (ℕ → ℕ) → ℕ → ℕ → ℕ → Memory → ℕ × Memory
sbrk_from kernel enomem increment b s =
    let start : ℕ = align b in
    let end : ℕ = (start + increment) % 2 ^ 32 in
    let new_brk : ℕ = kernel end in
    if new_brk == minus_one
    then (new_brk, record s { current_break = b })
    else (if ltb new_brk end
        then (minus_one, record { current_break = b; errno = enomem })
        else (start, record s { current_break = new_brk }))

unfoldable pub sbrk : (ℕ → ℕ) → ℕ → ℕ → Memory → ℕ × Memory
unfolding sbrk_from
sbrk kernel enomem increment s = sbrk_from kernel enomem increment (known_break kernel s) s

-- The flags that `mmap` converts.
pub data MapFlag : Type 0 where
  map_anon : MapFlag
  map_shared : MapFlag
  map_fixed : MapFlag
  map_private : MapFlag

-- LX_MAP_ANONYMOUS and the others.
unfoldable pub lx_map : MapFlag → ℕ
lx_map map_anon = 0x20
lx_map map_shared = 1
lx_map map_fixed = 0x10
lx_map map_private = 2

-- What `mmap` does: it sets `errno` and returns MAP_FAILED, or it calls `mmap2$LINUX`.
pub data Mapping : Type 0 where
  refused : (errno : ℕ) → Mapping
  mmap2 : (addr size prot : ℕ) → (flags : Word) → (fd page : ℕ) → Mapping

-- `mmap$LINUX`. The offset is the 64-bit word of an off_t; `einval` is EINVAL of the SDK.
unfoldable pub mmap_linux : ℕ → ℕ → ℕ → ℕ → Word → ℕ → ℕ → Mapping
mmap_linux einval addr size prot flags fd offset =
    if offset % 4096 == 0
    then mmap2 addr size prot flags fd (offset % 2 ^ 32 / 4096)
    else refused einval

-- The constants MAP_ANON and so on of the SDK.
module _ (darwin : MapFlag → Word) where
  unfoldable pub convert_map : List MapFlag → Word → Word → Word
  unfolding lx_map
  convert_map [] flags uflags = uflags
  convert_map (f ∷ fs) flags uflags =
      convert_map fs flags
        (if has flags (darwin f) then or_word uflags (word_of (lx_map f)) else uflags)

  unfoldable pub mmap : ℕ → ℕ → ℕ → ℕ → Word → ℕ → ℕ → Mapping
  unfolding convert_map
  mmap einval addr size prot flags fd offset =
      if offset % 4096 == 0
      then mmap2 addr size prot
          (convert_map (map_anon ∷ map_shared ∷ map_fixed ∷ map_private ∷ []) flags (word_of 0)) fd
          (offset % 2 ^ 32 / 4096)
      else refused einval
