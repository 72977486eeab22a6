-- ===== src/Termios/Names.antt =====
-- The names of core/darwin_ioctl.c and their values in core/linux_ioctl.h.
use lib_system_and_linker.Prelude.{ℕ, List, [], ◌∷◌}

-- The flags that both conversions know, in the order of the code.
pub data Flag : Type 0 where
  ignbrk : Flag
  brkint : Flag
  ignpar : Flag
  parmrk : Flag
  inpck : Flag
  istrip : Flag
  inlcr : Flag
  igncr : Flag
  icrnl : Flag
  ixon : Flag
  ixany : Flag
  ixoff : Flag
  imaxbel : Flag
  opost : Flag
  onlcr : Flag
  tab3 : Flag
  cstopb : Flag
  cread : Flag
  parenb : Flag
  parodd : Flag
  hupcl : Flag
  clocal : Flag
  crtscts : Flag
  isig : Flag
  icanon : Flag
  echo : Flag
  echoe : Flag
  echok : Flag
  echonl : Flag
  noflsh : Flag
  tostop : Flag
  echoctl : Flag
  echoprt : Flag
  echoke : Flag
  flusho : Flag
  pendin : Flag
  iexten : Flag

-- Those of `c_iflag`, `c_oflag`, `c_cflag` and `c_lflag`.
abbrev pub input_flags : List Flag
input_flags =
    ignbrk ∷ brkint ∷ ignpar ∷ parmrk ∷ inpck ∷ istrip ∷ inlcr ∷ igncr ∷ icrnl ∷ ixon ∷ ixany
    ∷ ixoff ∷ imaxbel ∷ []

abbrev pub output_flags : List Flag
output_flags = opost ∷ onlcr ∷ tab3 ∷ []

abbrev pub control_flags : List Flag
control_flags = cstopb ∷ cread ∷ parenb ∷ parodd ∷ hupcl ∷ clocal ∷ crtscts ∷ []

abbrev pub local_flags : List Flag
local_flags =
    isig ∷ icanon ∷ echo ∷ echoe ∷ echok ∷ echonl ∷ noflsh ∷ tostop ∷ echoctl ∷ echoprt ∷ echoke
    ∷ flusho ∷ pendin ∷ iexten ∷ []

-- The `LINUX_` masks; `TAB3` stands for `LINUX_XTABS`.
unfoldable pub linux_mask : Flag → ℕ
linux_mask ignbrk = 1
linux_mask brkint = 2
linux_mask ignpar = 4
linux_mask parmrk = 8
linux_mask inpck = 16
linux_mask istrip = 0x20
linux_mask inlcr = 0x40
linux_mask igncr = 0x80
linux_mask icrnl = 0x100
linux_mask ixon = 0x400
linux_mask ixany = 0x800
linux_mask ixoff = 0x1000
linux_mask imaxbel = 0x2000
linux_mask opost = 1
linux_mask onlcr = 4
linux_mask tab3 = 0x1800
linux_mask cstopb = 0x40
linux_mask cread = 0x80
linux_mask parenb = 0x100
linux_mask parodd = 0x200
linux_mask hupcl = 0x400
linux_mask clocal = 0x800
linux_mask crtscts = 0x80000000
linux_mask isig = 1
linux_mask icanon = 2
linux_mask echo = 8
linux_mask echoe = 16
linux_mask echok = 0x20
linux_mask echonl = 0x40
linux_mask noflsh = 0x80
linux_mask tostop = 0x100
linux_mask echoctl = 0x200
linux_mask echoprt = 0x400
linux_mask echoke = 0x800
linux_mask flusho = 0x1000
linux_mask pendin = 0x2000
linux_mask iexten = 0x8000

-- The speeds of `sptab`, which ends with the entry -1.
pub data Baud : Type 0 where
  b0 : Baud
  b50 : Baud
  b75 : Baud
  b110 : Baud
  b134 : Baud
  b150 : Baud
  b200 : Baud
  b300 : Baud
  b600 : Baud
  b1200 : Baud
  b1800 : Baud
  b2400 : Baud
  b4800 : Baud
  b9600 : Baud
  b19200 : Baud
  b38400 : Baud
  b57600 : Baud
  b115200 : Baud

abbrev pub sptab : List Baud
sptab =
    b0 ∷ b50 ∷ b75 ∷ b110 ∷ b134 ∷ b150 ∷ b200 ∷ b300 ∷ b600 ∷ b1200 ∷ b1800 ∷ b2400 ∷ b4800 ∷ b9600
    ∷ b19200 ∷ b38400 ∷ b57600 ∷ b115200 ∷ []

unfoldable pub linux_baud : Baud → ℕ
linux_baud b0 = 0
linux_baud b50 = 1
linux_baud b75 = 2
linux_baud b110 = 3
linux_baud b134 = 4
linux_baud b150 = 5
linux_baud b200 = 6
linux_baud b300 = 7
linux_baud b600 = 8
linux_baud b1200 = 9
linux_baud b1800 = 10
linux_baud b2400 = 11
linux_baud b4800 = 12
linux_baud b9600 = 13
linux_baud b19200 = 14
linux_baud b38400 = 15
linux_baud b57600 = 0x1001
linux_baud b115200 = 0x1002

-- The control characters that both conversions copy, in their order, and their Linux indices.
pub data ControlChar : Type 0 where
  vintr : ControlChar
  vquit : ControlChar
  verase : ControlChar
  vkill : ControlChar
  veof : ControlChar
  veol : ControlChar
  vmin : ControlChar
  vtime : ControlChar
  veol2 : ControlChar
  vsusp : ControlChar
  vstart : ControlChar
  vstop : ControlChar
  vreprint : ControlChar
  vdiscard : ControlChar
  vwerase : ControlChar
  vlnext : ControlChar

abbrev pub control_chars : List ControlChar
control_chars =
    vintr ∷ vquit ∷ verase ∷ vkill ∷ veof ∷ veol ∷ vmin ∷ vtime ∷ veol2 ∷ vsusp ∷ vstart ∷ vstop
    ∷ vreprint ∷ vdiscard ∷ vwerase ∷ vlnext ∷ []

unfoldable pub linux_slot : ControlChar → ℕ
linux_slot vintr = 0
linux_slot vquit = 1
linux_slot verase = 2
linux_slot vkill = 3
linux_slot veof = 4
linux_slot veol = 11
linux_slot vmin = 6
linux_slot vtime = 5
linux_slot veol2 = 16
linux_slot vsusp = 10
linux_slot vstart = 8
linux_slot vstop = 9
linux_slot vreprint = 12
linux_slot vdiscard = 13
linux_slot vwerase = 14
linux_slot vlnext = 15

abbrev pub linux_posix_vdisable : ℕ
linux_posix_vdisable = 0

abbrev pub linux_csize : ℕ
linux_csize = 0x30

abbrev pub linux_cbaud : ℕ
linux_cbaud = 0x100f
