-- ===== src/Unistd.antt =====
-- core/unistd.c: the functions that do more than pass their arguments to a system call.
pub mod Open
pub mod Sleep
mod Runs
use lib_system_and_linker.Prelude.{
  ℕ, zero, suc, ◌+◌, ◌-◌, ◌*◌, ◌/◌, ◌%◌, ◌^◌, ◌==◌, ltb, if◌then◌else◌, Bool, true, false, Option,
  none, some, List, [], ◌∷◌,
}
use lib_system_and_linker.Termios.Words.{Word, word_of, has, or_word}

-- The flags that `open` converts, in its order.
pub data OpenFlag : Type 0 where
  o_creat : OpenFlag
  o_accmode : OpenFlag
  o_excl : OpenFlag
  o_trunc : OpenFlag
  o_rdwr : OpenFlag
  o_nonblock : OpenFlag
  o_directory : OpenFlag
  o_async : OpenFlag
  o_rdonly : OpenFlag
  o_wronly : OpenFlag
  o_sync : OpenFlag
  o_append : OpenFlag
  o_nofollow : OpenFlag

abbrev pub open_flags : List OpenFlag
open_flags =
    o_creat ∷ o_accmode ∷ o_excl ∷ o_trunc ∷ o_rdwr ∷ o_nonblock ∷ o_directory ∷ o_async ∷ o_rdonly
    ∷ o_wronly ∷ o_sync ∷ o_append ∷ o_nofollow ∷ []

-- The constants of core/LX_fcntl.h for ARM.
unfoldable pub lx_flag : OpenFlag → ℕ
lx_flag o_creat = 0x40
lx_flag o_accmode = 3
lx_flag o_excl = 0x80
lx_flag o_trunc = 0x200
lx_flag o_rdwr = 2
lx_flag o_nonblock = 0x800
lx_flag o_directory = 0x4000
lx_flag o_async = 0x2000
lx_flag o_rdonly = 0
lx_flag o_wronly = 1
lx_flag o_sync = 0x1000
lx_flag o_append = 0x400
lx_flag o_nofollow = 0x8000

abbrev pub lx_o_largefile : ℕ
lx_o_largefile = 0x20000

-- The arguments of `open$LINUX` besides the path.
pub record OpenCall : Type 0 where
  pub uflags : Word
  pub mode : ℕ

-- The constants of fcntl.h of the SDK, which is not part of the repository.
module _ (darwin : OpenFlag → Word) where
  -- The `convertFlag` lines.
  unfoldable pub convert_open : List OpenFlag → Word → Word → Word
  unfolding lx_flag
  convert_open [] flags uflags = uflags
  convert_open (f ∷ fs) flags uflags =
      convert_open fs flags
        (if has flags (darwin f) then or_word uflags (word_of (lx_flag f)) else uflags)

  -- `mode_arg` is the argument behind `flags`, which is read for O_CREAT only, and `mode_bits` the width of
  -- the SDK's mode_t.
  unfoldable pub open_file : ℕ → Word → ℕ → OpenCall
  unfolding convert_open
  open_file mode_bits flags mode_arg =
      let uflags : Word = convert_open open_flags flags (word_of lx_o_largefile) in
      record {
        uflags = uflags;
        mode = if has uflags (darwin o_creat) then mode_arg % 2 ^ mode_bits else 0;
      }

-- struct timespec.
pub record Timespec : Type 0 where
  pub tv_sec : ℕ
  pub tv_nsec : ℕ

-- The request of `usleep`, in the branch for ARM and in the other one.
abbrev pub usleep_request_arm : ℕ → Timespec
usleep_request_arm usec = record {
  tv_sec = usec / 1000000;
  tv_nsec = (usec - usec / 1000000 * 1000000) * 1000 % 2 ^ 32;
}

abbrev pub usleep_request : ℕ → Timespec
usleep_request usec = record { tv_sec = usec / 1000000; tv_nsec = usec % 1000000 * 1000 % 2 ^ 32 }

-- What `nanosleep` does: it sleeps to the end, or EINTR with the time left, or another error.
pub data Answer : Type 0 where
  slept : Answer
  interrupted : (left : Timespec) → Answer
  failed : (errno : ℕ) → Answer

-- -1 as a 32-bit word.
abbrev pub minus_one : ℕ
minus_one = 2 ^ 32 - 1

-- The loop of `usleep` over the kernel's answers: the result and the requests that it made, `none`
-- for the result while it still sleeps.
unfoldable pub usleep_loop : List Answer → Timespec → Option ℕ × List Timespec
usleep_loop [] ts = (none, [])
usleep_loop (a ∷ answers) ts = elim a [
  | slept ↦ (some 0, ts ∷ [])
  | failed errno ↦ (some minus_one, ts ∷ [])
  | interrupted left ↦ let rest = usleep_loop answers left in (rest.0, ts ∷ rest.1)
]

unfoldable pub usleep : List Answer → ℕ → Option ℕ × List Timespec
unfolding usleep_loop
usleep answers usec = usleep_loop answers (usleep_request_arm usec)

-- `sleep`: the request and the result by the one answer.
unfoldable pub sleep : Answer → ℕ → Timespec × ℕ
sleep answer seconds =
    let seconds' : ℕ = if ltb seconds (2 ^ 31) then seconds else 0x7fffffff in
    let t : Timespec = record { tv_sec = seconds'; tv_nsec = 0 } in
    (t, elim answer [ slept ↦ 0 | interrupted left ↦ left.tv_sec | failed errno ↦ minus_one ])

-- The two halves that `lseek64` hands to `llseek$LINUX`, of an off_t of 64 bits.
unfoldable pub llseek_halves : ℕ → ℕ × ℕ
llseek_halves off = (off / 2 ^ 32 % 2 ^ 32, off % 2 ^ 32)
