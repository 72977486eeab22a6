-- ===== src/Memory/Runs.antt =====
-- Runs of core/mem.c and core/mmap.c.
use lib_system_and_linker.Prelude.{ℕ, ◌+◌, ◌%◌, ◌≤◌, ◌≡◌, refl, arith}
use lib_system_and_linker.Termios.Words.{Word, word_of}
use lib_system_and_linker.Memory.{Memory, sbrk, MapFlag, lx_map}
use lib_system_and_linker.Memory.Break.{sbrk_regions}

abbrev start : Memory
start = record { current_break = 0x10005; errno = 0 }

sbrk_regions_example :
    (p q : ℕ) × (t u : Memory) × (sbrk (λ e. e) 12 100 start ≡ (p, t))
    × (sbrk (λ e. e) 12 40 t ≡ (q, u))
    × (0x10005 ≤ p)
    × (p + 100 ≤ q)
    × (u.current_break ≡ q + 40)
    × (p % 32 ≡ 0)
    × (q % 32 ≡ 0)
sbrk_regions_example =
    sbrk_regions (λ e. e) (λ e. e) 12 100 40 start (omega arith) (omega arith) (λ e. refl)
      (λ e. refl)

abbrev masks : MapFlag → Word
masks f = word_of (lx_map f)
