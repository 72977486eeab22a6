-- ===== src/Memory/Pages.antt =====
-- The offsets of `mmap` of core/mmap.c.
use lib_system_and_linker.Prelude.{
  ℕ, ◌+◌, ◌*◌, ◌/◌, ◌%◌, ◌^◌, ◌<◌, ◌≡◌, ◌≢◌, ◌⊎◌, inl, inr, arith, ℕ_discrete, [], ◌∷◌,
}
use lib_system_and_linker.Termios.Words.{Word, word_of}
use lib_system_and_linker.Memory.{
  MapFlag, refused, mmap2, mmap, convert_map, map_anon, map_shared, map_fixed, map_private,
}

module _ (darwin : MapFlag → Word) where
  -- An offset below 4 GiB is refused with EINVAL unless it is a multiple of the page size, and then
  -- it is the offset of the page that the kernel is asked for; an offset 4 GiB further on gives the
  -- same call.
  pub mmap_pages :
      (einval addr size prot : ℕ) (flags : Word) (fd offset : ℕ)
      → offset < 2 ^ 32
      → (((offset % 4096 ≢ 0)
            × (mmap darwin einval addr size prot flags fd offset ≡ refused einval))
          ⊎ ((uflags : Word) × (page : ℕ) × (mmap darwin einval addr size prot flags fd offset
                ≡ mmap2 addr size prot uflags fd page)
              × (page * 4096 ≡ offset)))
        × (mmap darwin einval addr size prot flags fd (offset + 2 ^ 32)
            ≡ mmap darwin einval addr size prot flags fd offset)
  unfolding mmap
  mmap_pages einval addr size prot flags fd offset h = (
    elim (ℕ_discrete (offset % 4096) 0) [
      | no odd ↦ inl (odd, ground (arith, odd))
      | yes even ↦
          inr (uflags, offset % 2 ^ 32 / 4096, ground (arith, even), omega (arith, even, h))
    ],
    ground (arith, far, near),
  )
    where
      uflags : Word
      uflags =
          convert_map darwin (map_anon ∷ map_shared ∷ map_fixed ∷ map_private ∷ []) flags
            (word_of 0)

      far : (offset + 2 ^ 32) % 4096 ≡ offset % 4096
      far = omega arith

      near : (offset + 2 ^ 32) % 2 ^ 32 ≡ offset % 2 ^ 32
      near = omega arith
