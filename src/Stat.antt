-- ===== src/Stat.antt =====
-- darwin_stat.c: struct stat of the SDK from that of the Linux kernel.
pub mod Key
mod Runs
use lib_system_and_linker.Prelude.{◌-◌, ℕ, ◌+◌, ◌%◌, ◌^◌, ◌*◌, ltb, if◌then◌else◌, bit_or}

-- struct LX_stat, without the padding and the parts that are not read.
pub record LxStat : Type 0 where
  pub st_dev : ℕ
  pub st_mode : ℕ
  pub st_nlink : ℕ
  pub st_ino : ℕ
  pub st_uid : ℕ
  pub st_gid : ℕ
  pub st_rdev : ℕ
  pub st_size : ℕ
  pub st_blksize : ℕ
  pub st_blocks : ℕ
  pub lx_st_atime : ℕ
  pub lx_st_mtime : ℕ
  pub lx_st_ctime : ℕ

-- struct stat, or the number of bits of each of its members, which are those of the SDK's headers.
pub record Stat : Type 0 where
  pub st_dev : ℕ
  pub st_mode : ℕ
  pub st_nlink : ℕ
  pub st_ino : ℕ
  pub st_uid : ℕ
  pub st_gid : ℕ
  pub st_rdev : ℕ
  pub st_size : ℕ
  pub st_blksize : ℕ
  pub st_blocks : ℕ
  pub st_atime : ℕ
  pub st_mtime : ℕ
  pub st_ctime : ℕ

abbrev narrow : ℕ → ℕ → ℕ
narrow bits x = x % 2 ^ bits

-- The assignments, which the three functions share.
unfoldable pub translate : Stat → LxStat → Stat
translate bits st = record {
  st_dev = narrow bits.st_dev st.st_dev;
  st_mode = narrow bits.st_mode st.st_mode;
  st_nlink = narrow bits.st_nlink st.st_nlink;
  st_ino = narrow bits.st_ino st.st_ino;
  st_uid = narrow bits.st_uid st.st_uid;
  st_gid = narrow bits.st_gid st.st_gid;
  st_rdev = narrow bits.st_rdev st.st_rdev;
  st_size = narrow bits.st_size st.st_size;
  st_blksize = narrow bits.st_blksize st.st_blksize;
  st_blocks = narrow bits.st_blocks st.st_blocks;
  st_atime = narrow bits.st_atime st.lx_st_atime;
  st_mtime = narrow bits.st_mtime st.lx_st_mtime;
  st_ctime = narrow bits.st_ctime st.lx_st_ctime;
}

-- What a call returns, and what `*dst` holds behind it. The system calls are parameters: what they return,
-- and what the local structure, which is not initialised, holds behind them.
pub record Answer : Type 0 where
  pub rr : ℕ
  pub dst : Stat

unfoldable pub fstat : Stat → (ℕ → ℕ × LxStat) → ℕ → Answer
unfolding translate
fstat bits kernel fd = record { rr = (kernel fd).0; dst = translate bits (kernel fd).1 }

unfoldable pub lstat : Stat → (ℕ → ℕ × LxStat) → ℕ → Answer
unfolding translate
lstat bits kernel path = record { rr = (kernel path).0; dst = translate bits (kernel path).1 }

unfoldable pub stat : Stat → (ℕ → ℕ × LxStat) → ℕ → Answer
unfolding translate
stat bits kernel path = record { rr = (kernel path).0; dst = translate bits (kernel path).1 }

-- -1 as a 32-bit word.
abbrev pub minus_one : ℕ
minus_one = 2 ^ 32 - 1

-- `ftok` of core/unistd.c, on the 32 bits of a key_t.
unfoldable pub ftok : Stat → (ℕ → ℕ × LxStat) → ℕ → ℕ → ℕ
unfolding lstat
ftok bits kernel path id =
    let a = lstat bits kernel path in
    if ltb a.rr (2 ^ 31)
    then bit_or (bit_or (a.dst.st_ino % 2 ^ 16) (a.dst.st_dev % 2 ^ 8 * 2 ^ 16))
        (id % 2 ^ 8 * 2 ^ 24)
    else minus_one
