-- ===== src/Termios/Convert.antt =====
-- `bsd_to_linux_termios` and `linux_to_bsd_termios` of core/darwin_ioctl.c, and those for termio.
-- What is printed under DEBUG is left out.
use lib_system_and_linker.Prelude.{ℕ, ◌-◌, ◌^◌, ◌==◌, ltb, not, ◌&&◌, if◌then◌else◌, List, [], ◌∷◌}
use lib_system_and_linker.Termios.Words.{
  Word, word_of, has, and_word, or_word, shift_left, shift_right, agree,
}
use lib_system_and_linker.Termios.Names.{
  Flag, input_flags, output_flags, control_flags, local_flags, linux_mask, Baud, sptab, linux_baud,
  ControlChar, control_chars, linux_slot, linux_posix_vdisable, linux_csize, linux_cbaud,
}

-- The constants of the SDK's termios.h, which is not part of the repository.
pub record Sdk : Type 0 where
  pub mask : Flag → Word
  pub csize : Word
  pub slot : ControlChar → ℕ
  pub posix_vdisable : ℕ
  pub baud : Baud → ℕ

-- `c_cc` is the array by its index, of `NCCS` entries for BSD and `LINUX_NCCS` for Linux; the
-- indices of the control characters are below these.
pub record BsdTermios : Type 0 where
  pub c_iflag : Word
  pub c_oflag : Word
  pub c_cflag : Word
  pub c_lflag : Word
  pub c_cc : ℕ → ℕ
  pub c_ispeed : ℕ
  pub c_ospeed : ℕ

pub record LinuxTermios : Type 0 where
  pub c_iflag : Word
  pub c_oflag : Word
  pub c_cflag : Word
  pub c_lflag : Word
  pub c_line : ℕ
  pub c_cc : ℕ → ℕ

-- The flags are unsigned short, and there are `LINUX_NCC` control characters.
pub record LinuxTermio : Type 0 where
  pub c_iflag : Word
  pub c_oflag : Word
  pub c_cflag : Word
  pub c_lflag : Word
  pub c_line : ℕ
  pub c_cc : ℕ → ℕ

-- The `if (w & FROM) acc |= TO;` of a list of flags.
unfoldable pub convert_flags : (Flag → Word) → (Flag → Word) → List Flag → Word → Word → Word
convert_flags source target [] w acc = acc
convert_flags source target (f ∷ fs) w acc =
    convert_flags source target fs w (if has w (source f) then or_word acc (target f) else acc)

abbrev pub linux_word : Flag → Word
linux_word f = word_of (linux_mask f)

-- -1 as a 32-bit word.
abbrev pub minus_one : ℕ
minus_one = 2 ^ 32 - 1

unfoldable pub bsd_to_linux_speed : (Baud → ℕ) → ℕ → List Baud → ℕ
bsd_to_linux_speed baud speed [] = minus_one
bsd_to_linux_speed baud speed (b ∷ bs) =
    if baud b == speed then linux_baud b else bsd_to_linux_speed baud speed bs

unfoldable pub linux_to_bsd_speed : (Baud → ℕ) → Word → List Baud → ℕ
linux_to_bsd_speed baud code [] = minus_one
linux_to_bsd_speed baud code (b ∷ bs) =
    if agree 32 (word_of (linux_baud b)) code then baud b else linux_to_bsd_speed baud code bs

abbrev store : ℕ → ℕ → (ℕ → ℕ) → ℕ → ℕ
store i v cc j = if j == i then v else cc j

-- The `acc[TO] = cc[FROM];` of a list of control characters.
unfoldable pub copy_chars :
    (ControlChar → ℕ) → (ControlChar → ℕ) → List ControlChar → (ℕ → ℕ) → (ℕ → ℕ) → ℕ → ℕ
copy_chars source target [] cc acc = acc
copy_chars source target (c ∷ cs) cc acc =
    copy_chars source target cs cc (store (target c) (cc (source c)) acc)

-- The loop behind it: a control character that is switched off has another value on the other side.
-- `target` gives the indices VMIN and VTIME, which it leaves alone.
unfoldable pub sweep_chars : (ControlChar → ℕ) → ℕ → ℕ → (ℕ → ℕ) → ℕ → ℕ
sweep_chars target off off' cc i =
    if not (i == target ControlChar.vmin) && not (i == target ControlChar.vtime) && cc i == off
    then off'
    else cc i

module _ (sdk : Sdk) where
  unfoldable pub bsd_to_linux_termios : BsdTermios → LinuxTermios
  unfolding convert_flags bsd_to_linux_speed copy_chars sweep_chars
  bsd_to_linux_termios bios = record {
    c_iflag = convert_flags sdk.mask linux_word input_flags bios.c_iflag (word_of 0);
    c_oflag = convert_flags sdk.mask linux_word output_flags bios.c_oflag (word_of 0);
    c_cflag = convert_flags sdk.mask linux_word control_flags bios.c_cflag (
        or_word (word_of (bsd_to_linux_speed sdk.baud bios.c_ispeed sptab))
          (shift_right (and_word bios.c_cflag sdk.csize) 4));
    c_lflag = convert_flags sdk.mask linux_word local_flags bios.c_lflag (word_of 0);
    c_line = 0;
    c_cc =
        sweep_chars linux_slot sdk.posix_vdisable linux_posix_vdisable
          (copy_chars sdk.slot linux_slot control_chars bios.c_cc (λ i. linux_posix_vdisable));
  }

  unfoldable pub linux_to_bsd_termios : LinuxTermios → BsdTermios
  unfolding convert_flags linux_to_bsd_speed copy_chars sweep_chars
  linux_to_bsd_termios lios =
      let speed : ℕ =
        linux_to_bsd_speed sdk.baud (and_word lios.c_cflag (word_of linux_cbaud)) sptab in
      record {
        c_iflag = convert_flags linux_word sdk.mask input_flags lios.c_iflag (word_of 0);
        c_oflag = convert_flags linux_word sdk.mask output_flags lios.c_oflag (word_of 0);
        c_cflag =
            convert_flags linux_word sdk.mask control_flags lios.c_cflag
              (shift_left (and_word lios.c_cflag (word_of linux_csize)) 4);
        c_lflag = convert_flags linux_word sdk.mask local_flags lios.c_lflag (word_of 0);
        c_cc =
            sweep_chars sdk.slot linux_posix_vdisable sdk.posix_vdisable
              (copy_chars linux_slot sdk.slot control_chars lios.c_cc (λ i. sdk.posix_vdisable));
        c_ispeed = speed;
        c_ospeed = speed;
      }

  abbrev short : Word → Word
  short w i = ltb i 16 && w i

  unfoldable pub bsd_to_linux_termio : BsdTermios → LinuxTermio
  unfolding bsd_to_linux_termios
  bsd_to_linux_termio bios =
      let lios : LinuxTermios = bsd_to_linux_termios bios in
      record {
        c_iflag = short lios.c_iflag;
        c_oflag = short lios.c_oflag;
        c_cflag = short lios.c_cflag;
        c_lflag = short lios.c_lflag;
        c_line = lios.c_line;
        c_cc = lios.c_cc;
      }

  -- `c_line` of the local structure is not set, and not read.
  unfoldable pub linux_to_bsd_termio : ℕ → LinuxTermio → BsdTermios
  unfolding linux_to_bsd_termios
  linux_to_bsd_termio garbage lio = linux_to_bsd_termios (record {
    c_iflag = lio.c_iflag;
    c_oflag = lio.c_oflag;
    c_cflag = lio.c_cflag;
    c_lflag = lio.c_lflag;
    c_line = garbage;
    c_cc = λ i. if ltb i 8 then lio.c_cc i else linux_posix_vdisable;
  })
