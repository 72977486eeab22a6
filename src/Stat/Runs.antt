-- ===== src/Stat/Runs.antt =====
-- Keys of files for core/unistd.c and darwin_stat.c.
use lib_system_and_linker.Prelude.{
  ℕ, ◌/◌, ◌%◌, ◌^◌, ◌≤◌, ◌<◌, ◌≡◌, ◌⊎◌, inl, refl, ◌==◌, if◌then◌else◌,
}
use lib_system_and_linker.Stat.{LxStat, Stat, ftok, minus_one}
use lib_system_and_linker.Stat.Key.{ftok_fields}

abbrev widths : Stat
widths = record {
  st_dev = 32;
  st_mode = 16;
  st_nlink = 16;
  st_ino = 32;
  st_uid = 32;
  st_gid = 32;
  st_rdev = 32;
  st_size = 64;
  st_blksize = 32;
  st_blocks = 64;
  st_atime = 32;
  st_mtime = 32;
  st_ctime = 32;
}

-- One file, with an inode number of more than 32 bits.
abbrev file : LxStat
file = record {
  st_dev = 0xb302;
  st_mode = 0x81a4;
  st_nlink = 1;
  st_ino = 0x700012345;
  st_uid = 0;
  st_gid = 0;
  st_rdev = 0;
  st_size = 77;
  st_blksize = 4096;
  st_blocks = 8;
  lx_st_atime = 5;
  lx_st_mtime = 6;
  lx_st_ctime = 7;
}

abbrev kernel : ℕ → ℕ × LxStat
kernel path = (if path == 3 then 0 else minus_one, file)

ftok_fields_example :
    ((2 ^ 31 ≤ 0) × (ftok widths kernel 3 0x141 ≡ minus_one))
    ⊎ ((0 < 2 ^ 31)
        × (ftok widths kernel 3 0x141 % 2 ^ 16 ≡ 0x700012345 % 2 ^ 16)
        × (ftok widths kernel 3 0x141 / 2 ^ 16 % 2 ^ 8 ≡ 0xb302 % 2 ^ 8)
        × (ftok widths kernel 3 0x141 / 2 ^ 24 ≡ 0x141 % 2 ^ 8))
ftok_fields_example = ftok_fields widths kernel 3 0x141 refl (inl refl)

key : ftok widths kernel 3 0x141 ≡ 0x41022345
unfolding ftok
key = refl

no_key : ftok widths kernel 4 0x141 ≡ minus_one
unfolding ftok
no_key = refl
