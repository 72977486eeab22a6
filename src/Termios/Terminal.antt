-- ===== src/Termios/Terminal.antt =====
-- core/tty.c: the terminal functions over `ioctl$darwin`.
use lib_system_and_linker.Prelude.{ℕ, ◌==◌, if◌then◌else◌, Bool, Option, none, some}
use lib_system_and_linker.Termios.Words.{Word, or_word}
use lib_system_and_linker.Termios.Requests.{Direct}
use lib_system_and_linker.Termios.Convert.{Sdk, BsdTermios, LinuxTermios, minus_one}
use lib_system_and_linker.Termios.Bridge.{Case, Result, ioctl_darwin}

-- `opt & ~TCSASOFT`: TCSANOW, TCSADRAIN, TCSAFLUSH, or another.
pub data Action : Type 0 where
  now : Action
  drain : Action
  flush : Action
  unknown : Action

-- The constants of termios.h and sys/ioctl.h that only these functions use: how an `opt` is read, CIGNORE,
-- TIOCFLUSH, and the requests behind the range of `ioctl$darwin`.
pub record TtySdk : Type 0 where
  pub soft : ℕ → Bool
  pub action : ℕ → Action
  pub cignore : Word
  pub tiocflush : ℕ
  pub tiocmodg : ℕ
  pub tiocsbrk : ℕ
  pub einval : ℕ

-- What is returned, and what `errno` is set to by the function itself.
pub record Answer : Type 0 where
  pub result : ℕ
  pub errno : Option ℕ

-- The attributes that are set: with TCSASOFT those of a copy that has CIGNORE.
abbrev pub local_term : TtySdk → ℕ → BsdTermios → BsdTermios
local_term tty opt t =
    if tty.soft opt then record t { c_cflag = or_word t.c_cflag tty.cignore } else t

abbrev returned : Result → Answer
returned r = record { result = r.error; errno = none }

module _ (sdk : Sdk) (tty : TtySdk) (number : Case → ℕ) (set_call : ℕ → LinuxTermios → ℕ)
    (get_call : ℕ → ℕ × LinuxTermios) (call : ℕ → ℕ → ℕ) where
  -- `ioctl` of core/unistd.c.
  unfoldable pub ioctl : ℕ → BsdTermios → ℕ → ℕ → Result
  unfolding ioctl_darwin
  ioctl = ioctl_darwin sdk number set_call get_call call tty.tiocmodg tty.tiocsbrk

  -- `old` is what `*s` holds before; `garbage` is that of `ioctl$BRIDGE$termios`.
  unfoldable pub tcgetattr : BsdTermios → ℕ → Result
  unfolding ioctl
  tcgetattr old garbage = ioctl (number Case.tiocgeta) old 0 garbage

  unfoldable pub tcsetattr : ℕ → BsdTermios → ℕ → Answer
  unfolding ioctl
  tcsetattr opt t garbage = elim (tty.action opt) [
    | now ↦ returned (ioctl (number Case.tiocseta) (local_term tty opt t) 0 garbage)
    | drain ↦ returned (ioctl (number Case.tiocsetaw) (local_term tty opt t) 0 garbage)
    | flush ↦ returned (ioctl (number Case.tiocsetaf) (local_term tty opt t) 0 garbage)
    | unknown ↦ record { result = minus_one; errno = some tty.einval }
  ]

  -- The requests of these are handed on with a number or a pointer; `t` stands for a structure that
  -- none of them has.
  unfoldable pub tcflush : BsdTermios → ℕ → ℕ → ℕ
  unfolding ioctl
  tcflush t q garbage = (ioctl tty.tiocflush t q garbage).error

  -- `pid_at` is the process id that the kernel leaves at the address.
  unfoldable pub tcgetpgrp : BsdTermios → ℕ → ℕ → ℕ → ℕ
  unfolding ioctl
  tcgetpgrp t address pid_at garbage =
      if (ioctl (number (Case.direct Direct.tiocgpgrp)) t address garbage).error == 0
      then pid_at
      else minus_one

  unfoldable pub tcsetpgrp : BsdTermios → ℕ → ℕ → ℕ
  unfolding ioctl
  tcsetpgrp t address garbage =
      (ioctl (number (Case.direct Direct.tiocspgrp)) t address garbage).error

  unfoldable pub isatty : BsdTermios → ℕ → Bool
  unfolding tcgetattr
  isatty term garbage = (tcgetattr term garbage).error == 0
