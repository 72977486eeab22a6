-- ===== src/Unistd/Runs.antt =====
-- Runs of core/unistd.c.
use lib_system_and_linker.Prelude.{
  true, ◌%◌, ◌^◌, if◌then◌else◌, refl, ℕ, ◌+◌, ◌*◌, ◌<◌, ◌≡◌, some, [], ◌∷◌, arith,
}
use lib_system_and_linker.Termios.Words.{common, has, Word, word_of}
use lib_system_and_linker.Unistd.{
  convert_open, OpenFlag, o_creat, o_accmode, o_excl, o_trunc, o_rdwr, o_nonblock, o_directory,
  o_async, o_rdonly, o_wronly, o_sync, o_append, o_nofollow, Timespec, Answer, usleep_request,
  usleep_request_arm, usleep, minus_one, open_file,
}
use lib_system_and_linker.Unistd.Open.{open_drops_mode, open_access_mode}
use lib_system_and_linker.Unistd.Sleep.{interruptions, usleep_request_exact, usleep_resumes}

-- Constants in place of those of fcntl.h.
unfoldable sample : OpenFlag → ℕ
sample o_creat = 0x200
sample o_accmode = 3
sample o_excl = 0x800
sample o_trunc = 0x400
sample o_rdwr = 2
sample o_nonblock = 4
sample o_directory = 0x100000
sample o_async = 0x40
sample o_rdonly = 0
sample o_wronly = 1
sample o_sync = 0x80
sample o_append = 8
sample o_nofollow = 0x100

abbrev masks : OpenFlag → Word
masks f = word_of (sample f)

usleep_request_exact_example :
    (999999000 < 1000000000)
    × (2 * 1000000000 + 999999000 ≡ 2999999 * 1000)
    × (usleep_request 2999999 ≡ usleep_request_arm 2999999)
usleep_request_exact_example = usleep_request_exact 2999999 (omega arith)

abbrev one_second : Timespec
one_second = record { tv_sec = 1; tv_nsec = 0 }

usleep_resumes_example :
    (usleep (interruptions (one_second ∷ []) Answer.slept) 2999999
      ≡ (some 0, usleep_request_arm 2999999 ∷ one_second ∷ []))
    × (usleep (interruptions (one_second ∷ []) (Answer.failed 22)) 2999999
        ≡ (some minus_one, usleep_request_arm 2999999 ∷ one_second ∷ []))
usleep_resumes_example = usleep_resumes 2999999 22 (one_second ∷ [])

write_only : has (word_of 1) (masks o_accmode) ≡ true
unfolding sample word_of common
write_only = refl

-- O_CREAT alone: the mode 0600 is lost.
open_drops_mode_example :
    (open_file masks 16 (word_of 0x201) 0x180).mode
    ≡ (if has (word_of 0x201) (masks o_trunc) then 0x180 % 2 ^ 16 else 0)
unfolding sample
open_drops_mode_example = open_drops_mode masks 16 (word_of 0x201) 0x180 refl

created_without_mode : (open_file masks 16 (word_of 0x201) 0x180).mode ≡ 0
unfolding open_file convert_open word_of sample common
created_without_mode = refl

-- O_WRONLY alone.
open_access_mode_example :
    ((open_file masks 16 (word_of 1) 0).uflags 0 ≡ true)
    × ((open_file masks 16 (word_of 1) 0).uflags 1 ≡ true)
open_access_mode_example = open_access_mode masks 16 (word_of 1) 0 write_only
