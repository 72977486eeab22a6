-- ===== src/Termios/Chars.antt =====
-- The control characters of a terminal through `bsd_to_linux_termios` and `linux_to_bsd_termios` of
-- core/darwin_ioctl.c.
use lib_system_and_linker.Prelude.{
  ℕ, ◌==◌, ◌≡◌, ap, not, ◌&&◌, if◌then◌else◌, Bool, true, ℕ_discrete, List, [], ◌∷◌, arith,
}
use lib_system_and_linker.Termios.Names.{
  ControlChar, control_chars, linux_slot, linux_posix_vdisable,
}
use lib_system_and_linker.Termios.Convert.{
  Sdk, BsdTermios, copy_chars, sweep_chars, bsd_to_linux_termios, linux_to_bsd_termios,
}
use lib_system_and_linker.Termios.Slots.{
  timed, linux_slot-injective, linux-timed, listed, all-listed, same-test,
}

module _ (source target : ControlChar → ℕ)
    (injective : (c d : ControlChar) → target c ≡ target d → c ≡ d) where
  copy-kept :
      (cs : List ControlChar) (chars acc : ℕ → ℕ) (c : ControlChar)
      → acc (target c) ≡ chars (source c)
      → copy_chars source target cs chars acc (target c) ≡ chars (source c)
  unfolding copy_chars
  copy-kept [] chars acc c h = h
  copy-kept (d ∷ ds) chars acc c h = elim (ℕ_discrete (target c) (target d)) [
    | yes e ↦ copy-kept ds chars _ c (ground (arith, ap source (injective c d e)))
    | no n ↦ copy-kept ds chars _ c (ground arith)
  ]

  copy_chars_lem :
      (cs : List ControlChar) (chars acc : ℕ → ℕ) (c : ControlChar)
      → listed cs c ≡ true
      → copy_chars source target cs chars acc (target c) ≡ chars (source c)
  unfolding copy_chars listed
  copy_chars_lem [] chars acc c h = cc
  copy_chars_lem (d ∷ ds) chars acc c h = elim (ℕ_discrete (linux_slot d) (linux_slot c)) [
    | yes e ↦ copy-kept ds chars _ c (
        ground
          (arith, ap source (linux_slot-injective d c e), ap target (linux_slot-injective d c e)))
    | no n ↦ copy_chars_lem ds chars _ c (ground arith)
  ]

-- One direction: a character that is switched off (`off`) becomes `off'`.
convert-char :
    (source target : ControlChar → ℕ) (off off' : ℕ) (chars acc : ℕ → ℕ) (c : ControlChar)
    → ((c d : ControlChar) → target c ≡ target d → c ≡ d)
    → sweep_chars target off off' (copy_chars source target control_chars chars acc) (target c) ≡ (
        if timed c
        then chars (source c)
        else (if chars (source c) == off then off' else chars (source c)))
unfolding sweep_chars
convert-char source target off off' chars acc c injective = ground (
  arith,
  copy_chars_lem source target injective control_chars chars acc c (all-listed c),
  same-test target linux_slot c ControlChar.vmin injective linux_slot-injective,
  same-test target linux_slot c ControlChar.vtime injective linux_slot-injective,
  linux-timed c,
)

-- `v` converted to `x` and that to `y`.
there_and_back :
    (is_timed : Bool) (v x y off : ℕ)
    → x ≡ (if is_timed then v else (if v == off then 0 else v))
    → y ≡ (if is_timed then x else (if x == 0 then off else x))
    → y ≡ (if not is_timed && v == 0 then off else v)
there_and_back is_timed v x y off h k = ground arith

-- Where the indices of termios.h differ from each other, every control character comes back as it
-- was, save that '\0', with which Linux switches a character off, comes back as _POSIX_VDISABLE, VMIN
-- and VTIME excepted.
pub chars_roundtrip :
    (sdk : Sdk) (bios : BsdTermios) (c : ControlChar)
    → ((c d : ControlChar) → sdk.slot c ≡ sdk.slot d → c ≡ d)
    → (linux_to_bsd_termios sdk (bsd_to_linux_termios sdk bios)).c_cc (sdk.slot c) ≡ (
        if not (timed c) && bios.c_cc (sdk.slot c) == 0
        then sdk.posix_vdisable
        else bios.c_cc (sdk.slot c))
unfolding linux_to_bsd_termios bsd_to_linux_termios
chars_roundtrip sdk bios c injective =
    there_and_back (timed c) _ _ _ sdk.posix_vdisable
      (convert-char sdk.slot linux_slot sdk.posix_vdisable linux_posix_vdisable bios.c_cc
        (λ i. linux_posix_vdisable) c linux_slot-injective)
      (convert-char linux_slot sdk.slot linux_posix_vdisable sdk.posix_vdisable
        ((bsd_to_linux_termios sdk bios).c_cc) (λ i. sdk.posix_vdisable) c injective)
