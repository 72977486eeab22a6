-- ===== src/Termios/Attributes.antt =====
-- What `tcsetattr` of core/tty.c hands to the kernel, and what `tcgetattr` reads of it.
use lib_system_and_linker.Prelude.{ℕ, ◌%◌, ◌^◌, ◌≡◌, leb, ◌&&◌, true, some}
use lib_system_and_linker.Termios.Requests.{linux_tcsets, linux_tcsetsw, linux_tcsetsf}
use lib_system_and_linker.Termios.Bridge.{Case, cases, find_case}
use lib_system_and_linker.Termios.Terminal.{Action, now, drain, flush, unknown, TtySdk}

-- The request lies where `ioctl$darwin` takes it for one about a terminal.
abbrev pub InRange : TtySdk → ℕ → Type 0
InRange tty request =
    (leb (tty.tiocmodg % 2 ^ 16) (request % 2 ^ 16)
      && leb (request % 2 ^ 16) (tty.tiocsbrk % 2 ^ 16))
    ≡ true

-- The kernel's request for an action.
abbrev pub set_request : Action → ℕ
set_request now = linux_tcsets
set_request drain = linux_tcsetsw
set_request flush = linux_tcsetsf
set_request unknown = 0

abbrev pub case_of : Action → Case
case_of now = Case.tiocseta
case_of drain = Case.tiocsetaw
case_of flush = Case.tiocsetaf
case_of unknown = Case.tiocgeta

-- The SDK's numbers tell the terminal's requests apart, and lie in the range.
pub record Tells (tty : TtySdk) (number : Case → ℕ) : Type 0 where
  pub reads : InRange tty (number Case.tiocgeta)
  pub sets : (a : Action) → InRange tty (number (case_of a))
  pub finds : (a : Action) → find_case number cases (number (case_of a)) ≡ some (case_of a)
