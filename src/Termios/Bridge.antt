-- ===== src/Termios/Bridge.antt =====
-- `ioctl$BRIDGE$termios` and `ioctl$darwin` of core/darwin_ioctl.c.
use lib_system_and_linker.Prelude.{
  ℕ, ◌%◌, ◌^◌, ◌==◌, leb, ◌&&◌, if◌then◌else◌, Option, none, some, List, [], ◌∷◌,
}
use lib_system_and_linker.Termios.Requests.{
  Direct, direct_cases, linux_request, linux_tcgets, linux_tcsets, linux_tcsetsw, linux_tcsetsf,
}
use lib_system_and_linker.Termios.Convert.{
  Sdk, BsdTermios, LinuxTermios, bsd_to_linux_termios, linux_to_bsd_termios, minus_one,
}

-- The cases of the switch.
pub data Case : Type 0 where
  tiocgeta : Case
  tiocseta : Case
  tiocsetaw : Case
  tiocstop : Case
  tiocstart : Case
  tiocstat : Case
  tiocsetaf : Case
  direct : (d : Direct) → Case
  tcioflush : Case

unfoldable pub direct_of : List Direct → List Case
direct_of [] = []
direct_of (d ∷ ds) = Case.direct d ∷ direct_of ds

unfoldable pub cases : List Case
unfolding direct_of
cases =
    tiocgeta
    ∷ tiocseta
    ∷ tiocsetaw
    ∷ tiocstop
    ∷ tiocstart
    ∷ tiocstat
    ∷ tiocsetaf
    ∷ tcioflush
    ∷ direct_of direct_cases

-- The case of a request number, `none` for `default`. `number` has the SDK's request numbers.
unfoldable pub find_case : (Case → ℕ) → List Case → ℕ → Option Case
find_case number [] request = none
find_case number (c ∷ cs) request =
    if number c == request then some c else find_case number cs request

-- What a call does: the value that it returns, and what `param` points to behind it where that is a
-- struct termios.
pub record Result : Type 0 where
  pub error : ℕ
  pub termios : BsdTermios

-- `ioctl$LINUX` on `fd`, by what its last argument points to: a struct linux_termios that it reads, or
-- one that it fills, or anything else.
module _ (sdk : Sdk) (number : Case → ℕ) (set_call : ℕ → LinuxTermios → ℕ)
    (get_call : ℕ → ℕ × LinuxTermios) (call : ℕ → ℕ → ℕ) where
  abbrev set_attributes : ℕ → BsdTermios → Result
  set_attributes request bios = record {
    error = set_call request (bsd_to_linux_termios sdk bios);
    termios = bios;
  }

  unfoldable pub get_attributes : ℕ × LinuxTermios → BsdTermios → Result
  get_attributes r bios = record {
    error = r.0;
    termios = if r.0 == 0 then linux_to_bsd_termios sdk r.1 else bios;
  }

  unfoldable pub run_case : Case → BsdTermios → ℕ → ℕ → Result
  unfolding get_attributes
  run_case tiocgeta bios param garbage = get_attributes (get_call linux_tcgets) bios
  run_case tiocseta bios param garbage = set_attributes linux_tcsets bios
  run_case tiocsetaw bios param garbage = set_attributes linux_tcsetsw bios
  run_case tiocstop bios param garbage = record { error = minus_one; termios = bios }
  run_case tiocstart bios param garbage = record { error = minus_one; termios = bios }
  run_case tiocstat bios param garbage = record { error = minus_one; termios = bios }
  run_case tiocsetaf bios param garbage = set_attributes linux_tcsetsf bios
  run_case (Case.direct d) bios param garbage = record {
    error = call (linux_request d) param;
    termios = bios;
  }
  run_case tcioflush bios param garbage = record { error = garbage; termios = bios }

  -- `garbage` is what the local variable `error` holds before the switch: it is not initialised.
  unfoldable pub ioctl_bridge_termios : ℕ → BsdTermios → ℕ → ℕ → Result
  unfolding find_case cases run_case
  ioctl_bridge_termios request bios param garbage = elim (find_case number cases request) [
    | none ↦ record { error = garbage; termios = bios }
    | some c ↦ run_case c bios param garbage
  ]

  -- `tiocmodg` and `tiocsbrk` are the request numbers behind BSD_TERMIO_MIN and BSD_TERMIO_MAX.
  unfoldable pub ioctl_darwin : ℕ → ℕ → ℕ → BsdTermios → ℕ → ℕ → Result
  unfolding ioctl_bridge_termios
  ioctl_darwin tiocmodg tiocsbrk request bios param garbage =
      let cmd : ℕ = request % 2 ^ 16 in
      if leb (tiocmodg % 2 ^ 16) cmd && leb cmd (tiocsbrk % 2 ^ 16)
      then ioctl_bridge_termios request bios param garbage
      else record { error = call request param; termios = bios }
