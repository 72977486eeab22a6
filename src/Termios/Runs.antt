-- ===== src/Termios/Runs.antt =====
-- Runs of core/darwin_ioctl.c with the constants of Termios/Sample.antt.
use lib_system_and_linker.Prelude.{
  ℕ, ◌≡◌, ◌≢◌, ◌/◌, ◌%◌, some, refl, arith, true, false, not, ◌&&◌, ◌==◌, if◌then◌else◌,
}
use lib_system_and_linker.Termios.Words.{word_of, common}
use lib_system_and_linker.Termios.Names.{
  linux_baud, ControlChar, input_flags, output_flags, control_flags, local_flags, sptab,
}
use lib_system_and_linker.Termios.Convert.{
  BsdTermios, LinuxTermios, minus_one, bsd_to_linux_speed, bsd_to_linux_termios,
  linux_to_bsd_termios,
}
use lib_system_and_linker.Termios.Masks.{separate, overlaps, SameFlags}
use lib_system_and_linker.Termios.Slots.{timed}
use lib_system_and_linker.Termios.Bridge.{Case, Result, ioctl_bridge_termios}
use lib_system_and_linker.Termios.RoundTrip.{termios_roundtrip}
use lib_system_and_linker.Termios.Chars.{chars_roundtrip}
use lib_system_and_linker.Termios.Terminal.{
  now, drain, flush, unknown, TtySdk, local_term, tcsetattr, tcflush,
}
use lib_system_and_linker.Termios.Sample.{sample, sample_mask, sample_baud, sample_slot-injective}

-- A terminal at a speed, with eight bits, CREAD, ICANON and ECHO.
abbrev terminal : ℕ → BsdTermios
terminal speed = record {
  c_iflag = word_of 0x2b02;
  c_oflag = word_of 3;
  c_cflag = word_of 0x4b00;
  c_lflag = word_of 0x5cb;
  c_cc = λ i. i;
  c_ispeed = speed;
  c_ospeed = speed;
}

sample_separate :
    (separate sample.mask input_flags ≡ true)
    × (separate sample.mask output_flags ≡ true)
    × (separate sample.mask control_flags ≡ true)
    × (separate sample.mask local_flags ≡ true)
    × (overlaps sample.mask control_flags sample.csize ≡ false)
unfolding separate overlaps common word_of sample_mask
sample_separate = (refl, refl, refl, refl, refl)

speed_code : bsd_to_linux_speed sample.baud 9600 sptab ≡ 13
unfolding bsd_to_linux_speed sample_baud linux_baud
speed_code = refl

known_speed : bsd_to_linux_speed sample.baud 9600 sptab ≢ minus_one
known_speed h = omega (arith, speed_code, h)

-- What comes back.
abbrev back : BsdTermios
back = linux_to_bsd_termios sample (bsd_to_linux_termios sample (terminal 9600))

termios_roundtrip_example :
    SameFlags sample.mask sample.mask back.c_iflag (terminal 9600).c_iflag input_flags
    × SameFlags sample.mask sample.mask back.c_oflag (terminal 9600).c_oflag output_flags
    × SameFlags sample.mask sample.mask back.c_cflag (terminal 9600).c_cflag control_flags
    × SameFlags sample.mask sample.mask back.c_lflag (terminal 9600).c_lflag local_flags
termios_roundtrip_example =
    termios_roundtrip sample (terminal 9600) sample_separate.0 sample_separate.1 sample_separate.2
      sample_separate.3 refl sample_separate.4 known_speed

chars_roundtrip_example : back.c_cc (sample.slot ControlChar.veof) ≡ (
    if not (timed ControlChar.veof) && (terminal 9600).c_cc (sample.slot ControlChar.veof) == 0
    then 0xff
    else (terminal 9600).c_cc (sample.slot ControlChar.veof))
chars_roundtrip_example =
    chars_roundtrip sample (terminal 9600) ControlChar.veof sample_slot-injective

abbrev number : Case → ℕ
number Case.tiocgeta = 0x7413
number Case.tiocseta = 0x7414
number Case.tiocsetaw = 0x7415
number Case.tiocstop = 0x746f
number Case.tiocstart = 0x746e
number Case.tiocstat = 0x7465
number Case.tiocsetaf = 0x7416
number (Case.direct d) = 0x740d
number Case.tcioflush = 3

-- A kernel that holds the terminal's attributes.
abbrev reads : ℕ → ℕ × LinuxTermios
reads request = (0, bsd_to_linux_termios sample (terminal 9600))

abbrev answer : BsdTermios → Result
answer old = ioctl_bridge_termios sample number (λ r l. 0) reads (λ r p. 0) 0x7413 old 0x8000 77

abbrev flush_with : ℕ → Result
flush_with = ioctl_bridge_termios sample number (λ r l. 0) reads (λ r p. 0) 3 (terminal 50) 0x8000

abbrev tty : TtySdk
tty = record {
  soft = λ opt. opt / 16 % 2 == 1;
  action = λ opt.
      if opt % 16 == 0
      then now
      else (if opt % 16 == 1 then drain else (if opt % 16 == 2 then flush else unknown));
  cignore = word_of 1;
  tiocflush = 0x7410;
  tiocmodg = 0x7403;
  tiocsbrk = 0x747b;
  einval = 22;
}

-- A kernel that takes the attributes and keeps them.
abbrev kept : BsdTermios
kept = local_term tty 17 (terminal 9600)

abbrev read_kept : ℕ → ℕ × LinuxTermios
read_kept request = (0, bsd_to_linux_termios sample kept)

-- TIOCFLUSH is in the range and no case: what is returned is what the variable held.
flushes_nothing :
    (garbage : ℕ)
    → tcflush sample tty number (λ r l. 0) read_kept (λ r p. 0) (terminal 50) 1 garbage ≡ garbage
unfolding tcflush
flushes_nothing garbage = refl

refused :
    tcsetattr sample tty number (λ r l. 0) read_kept (λ r p. 0) 3 (terminal 50) 77
    ≡ record { result = minus_one; errno = some 22 }
unfolding tcsetattr
refused = refl
