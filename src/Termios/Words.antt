-- ===== src/Termios/Words.antt =====
-- The words of the C code in core/darwin_ioctl.c, bit by bit.
use lib_system_and_linker.Prelude.{
  ℕ, zero, suc, ◌+◌, ◌-◌, ◌/◌, ◌%◌, ◌^◌, ◌==◌, ltb, ◌&&◌, ◌||◌, if◌then◌else◌, Bool, true, false,
}

-- An unsigned int: bit `i` for `i` below 32; what stands above is not part of it.
abbrev pub Word : Type 0
Word = ℕ → Bool

-- The word of a number.
unfoldable pub word_of : ℕ → Word
word_of n i = n / 2 ^ i % 2 == 1

-- `w & m` is not 0, looking at the lowest `n` bits.
unfoldable pub common : ℕ → Word → Word → Bool
common zero w m = false
common (suc n) w m = (w n && m n) || common n w m

-- `w & m` as a condition.
abbrev pub has : Word → Word → Bool
has w m = common 32 w m

-- `w & m`, `w | v`, `w << k` and `w >> k`.
abbrev pub and_word : Word → Word → Word
and_word w m i = w i && m i

abbrev pub or_word : Word → Word → Word
or_word w v i = w i || v i

abbrev pub shift_left : Word → ℕ → Word
shift_left w k i = if ltb i k then false else w (i - k)

abbrev pub shift_right : Word → ℕ → Word
shift_right w k i = if ltb (i + k) 32 then w (i + k) else false

-- The lowest `n` bits agree.
unfoldable pub agree : ℕ → Word → Word → Bool
agree zero w v = true
agree (suc n) w v = (if w n then v n else (if v n then false else true)) && agree n w v
