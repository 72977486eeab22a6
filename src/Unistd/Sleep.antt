-- ===== src/Unistd/Sleep.antt =====
-- `usleep` and `lseek64` of core/unistd.c.
use lib_system_and_linker.Prelude.{ℕ, ◌+◌, ◌*◌, ◌^◌, ◌<◌, ◌≡◌, refl, some, List, [], ◌∷◌, arith}
use lib_system_and_linker.Unistd.{
  Timespec, usleep_request_arm, usleep_request, Answer, usleep_loop, usleep, minus_one,
  llseek_halves,
}

-- For an argument of 32 bits the request of `usleep` is a proper struct timespec, of as many
-- nanoseconds as the microseconds that were asked for, and the branch for ARM makes the same one as
-- the other branch.
pub usleep_request_exact :
    (usec : ℕ)
    → usec < 2 ^ 32
    → let ts : Timespec = usleep_request_arm usec in
      (ts.tv_nsec < 1000000000)
      × (ts.tv_sec * 1000000000 + ts.tv_nsec ≡ usec * 1000)
      × (usleep_request usec ≡ ts)
usleep_request_exact usec h = (omega (arith, h), omega (arith, h), ground (arith, h))

-- The kernel interrupts with each of the times left and then gives `last`.
unfoldable pub interruptions : List Timespec → Answer → List Answer
interruptions [] last = last ∷ []
interruptions (left ∷ lefts) last = Answer.interrupted left ∷ interruptions lefts last

loop-slept :
    (lefts : List Timespec) (ts : Timespec)
    → usleep_loop (interruptions lefts Answer.slept) ts ≡ (some 0, ts ∷ lefts)
unfolding usleep_loop interruptions
loop-slept [] ts = refl
loop-slept (left ∷ lefts) ts = ground (arith, loop-slept lefts left)

loop-failed :
    (lefts : List Timespec) (errno : ℕ) (ts : Timespec)
    → usleep_loop (interruptions lefts (Answer.failed errno)) ts ≡ (some minus_one, ts ∷ lefts)
unfolding usleep_loop interruptions
loop-failed [] errno ts = refl
loop-failed (left ∷ lefts) errno ts = ground (arith, loop-failed lefts errno left)

-- However often it is interrupted, `usleep` asks each time for what was left, and returns 0 when the
-- kernel has slept to the end and -1 on another error.
pub usleep_resumes :
    (usec errno : ℕ) (lefts : List Timespec)
    → (usleep (interruptions lefts Answer.slept) usec ≡ (some 0, usleep_request_arm usec ∷ lefts))
      × (usleep (interruptions lefts (Answer.failed errno)) usec
          ≡ (some minus_one, usleep_request_arm usec ∷ lefts))
unfolding usleep
usleep_resumes usec errno lefts =
    (loop-slept lefts (usleep_request_arm usec), loop-failed lefts errno (usleep_request_arm usec))

-- The two halves that `lseek64` hands over are words of 32 bits that make up the offset of 64 bits.
pub llseek_halves_exact :
    (off : ℕ)
    → off < 2 ^ 64
    → ((llseek_halves off).0 < 2 ^ 32)
      × ((llseek_halves off).1 < 2 ^ 32)
      × ((llseek_halves off).0 * 2 ^ 32 + (llseek_halves off).1 ≡ off)
unfolding llseek_halves
llseek_halves_exact off h = (omega arith, omega arith, omega (arith, h))
