-- ===== src/Termios/Requests.antt =====
-- Requests of ioctl in core/darwin_ioctl.c and core/linux_ioctl.h.
use lib_system_and_linker.Prelude.{ℕ, List, [], ◌∷◌}

-- The requests of `directCase`, with the Linux ones.
pub data Direct : Type 0 where
  tiocexcl : Direct
  tiocgpgrp : Direct
  tiocnxcl : Direct
  tiocsctty : Direct
  tiocgwinsz : Direct
  tiocswinsz : Direct
  tiocspgrp : Direct
  tiocmget : Direct
  tiocmbis : Direct
  tiocmbic : Direct
  tiocmset : Direct
  fionread : Direct
  tioccons : Direct
  tiocpkt : Direct
  fionbio : Direct
  fionclex : Direct
  fioasync : Direct
  tiocsbrk : Direct
  tioccbrk : Direct

abbrev pub direct_cases : List Direct
direct_cases =
    tiocexcl ∷ tiocgpgrp ∷ tiocnxcl ∷ tiocsctty ∷ tiocgwinsz ∷ tiocswinsz ∷ tiocspgrp ∷ tiocmget
    ∷ tiocmbis ∷ tiocmbic ∷ tiocmset ∷ fionread ∷ tioccons ∷ tiocpkt ∷ fionbio ∷ fionclex ∷ fioasync
    ∷ tiocsbrk ∷ tioccbrk ∷ []

unfoldable pub linux_request : Direct → ℕ
linux_request tiocexcl = 0x540c
linux_request tiocgpgrp = 0x540f
linux_request tiocnxcl = 0x540d
linux_request tiocsctty = 0x540e
linux_request tiocgwinsz = 0x5413
linux_request tiocswinsz = 0x5414
linux_request tiocspgrp = 0x5410
linux_request tiocmget = 0x5415
linux_request tiocmbis = 0x5416
linux_request tiocmbic = 0x5417
linux_request tiocmset = 0x5418
linux_request fionread = 0x541b
linux_request tioccons = 0x541d
linux_request tiocpkt = 0x5420
linux_request fionbio = 0x5421
linux_request fionclex = 0x5450
linux_request fioasync = 0x5452
linux_request tiocsbrk = 0x5427
linux_request tioccbrk = 0x5428

abbrev pub linux_tcgets : ℕ
linux_tcgets = 0x5401

abbrev pub linux_tcsets : ℕ
linux_tcsets = 0x5402

abbrev pub linux_tcsetsw : ℕ
linux_tcsetsw = 0x5403

abbrev pub linux_tcsetsf : ℕ
linux_tcsetsf = 0x5404
