-- ===== src/Stat/Key.antt =====
-- `ftok` of core/unistd.c over `lstat` of darwin_stat.c: what a key tells of a file.
use lib_system_and_linker.Prelude.{
  ℕ, ◌+◌, ◌*◌, ◌/◌, ◌%◌, ◌^◌, ◌≤◌, ◌<◌, ◌≡◌, ◌⊎◌, inl, inr, refl, ltb, bit_or, Bool-cases, arith,
}
use lib_system_and_linker.Prelude.Bits.{bit_or-shifted}
use lib_system_and_linker.Stat.{LxStat, Stat, ftok, minus_one}

-- Three fields side by side.
key-fields :
    (ino dev id : ℕ)
    → ino < 2 ^ 16
    → dev < 2 ^ 8
    → bit_or (bit_or ino (dev * 2 ^ 16)) (id * 2 ^ 24) ≡ ino + dev * 2 ^ 16 + id * 2 ^ 24
key-fields ino dev id i d =
    rw (bit_or-shifted 16 ino dev i) (bit_or-shifted 24 (ino + dev * 2 ^ 16) id (omega arith))

-- Where dev_t has 32 bits and ino_t 32 or 64: `ftok` is -1 where `lstat` fails; else the key's lowest 16
-- bits are the lowest ones of the kernel's inode number, also of one that `struct stat` cuts, the next 8 the lowest ones of its
-- device number, and the highest 8 the lowest ones of `id`.
pub ftok_fields :
    (bits : Stat) (kernel : ℕ → ℕ × LxStat) (path id : ℕ)
    → bits.st_dev ≡ 32
    → (bits.st_ino ≡ 32) ⊎ (bits.st_ino ≡ 64)
    → let key : ℕ = ftok bits kernel path id in
      ((2 ^ 31 ≤ (kernel path).0) × (key ≡ minus_one))
      ⊎ (((kernel path).0 < 2 ^ 31)
          × (key % 2 ^ 16 ≡ (kernel path).1.st_ino % 2 ^ 16)
          × (key / 2 ^ 16 % 2 ^ 8 ≡ (kernel path).1.st_dev % 2 ^ 8)
          × (key / 2 ^ 24 ≡ id % 2 ^ 8))
unfolding ftok
ftok_fields bits kernel path id dev ino = elim (Bool-cases (ltb (kernel path).0 (2 ^ 31))) [
  | inr failed ↦ inl (ground (arith, failed), rw failed refl)
  | inl works ↦
      let ino' : (kernel path).1.st_ino % 2 ^ bits.st_ino % 2 ^ 16
          ≡ (kernel path).1.st_ino % 2 ^ 16 =
        elim ino [ inl e ↦ rw e (omega arith) | inr e ↦ rw e (omega arith) ] in
      let dev' : (kernel path).1.st_dev % 2 ^ bits.st_dev % 2 ^ 8 ≡ (kernel path).1.st_dev % 2 ^ 8 =
        rw dev (omega arith) in
      let whole : ftok bits kernel path id
          ≡ (kernel path).1.st_ino % 2 ^ 16
            + (kernel path).1.st_dev % 2 ^ 8 * 2 ^ 16
            + id % 2 ^ 8 * 2 ^ 24 =
        rw (works, ino', dev')
          (key-fields ((kernel path).1.st_ino % 2 ^ 16) ((kernel path).1.st_dev % 2 ^ 8)
            (id % 2 ^ 8) (omega arith) (omega arith)) in
      inr (ground (arith, works), omega (arith, whole), omega (arith, whole), omega (arith, whole))
]
