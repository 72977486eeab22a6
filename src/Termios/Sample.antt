-- ===== src/Termios/Sample.antt =====
-- Constants in place of those of termios.h, for the runs of core/darwin_ioctl.c.
use lib_system_and_linker.Prelude.{ℕ, ◌==◌, ◌≡◌, refl, sym, ap, ◌∙◌, if◌then◌else◌}
use lib_system_and_linker.Termios.Words.{word_of, shift_left}
use lib_system_and_linker.Termios.Names.{Flag, Baud, ControlChar, linux_csize}
use lib_system_and_linker.Termios.Convert.{Sdk}

unfoldable pub sample_mask : Flag → ℕ
sample_mask Flag.ignbrk = 0x1
sample_mask Flag.brkint = 0x2
sample_mask Flag.ignpar = 0x4
sample_mask Flag.parmrk = 0x8
sample_mask Flag.inpck = 0x10
sample_mask Flag.istrip = 0x20
sample_mask Flag.inlcr = 0x40
sample_mask Flag.igncr = 0x80
sample_mask Flag.icrnl = 0x100
sample_mask Flag.ixon = 0x200
sample_mask Flag.ixany = 0x800
sample_mask Flag.ixoff = 0x400
sample_mask Flag.imaxbel = 0x2000
sample_mask Flag.opost = 0x1
sample_mask Flag.onlcr = 0x2
sample_mask Flag.tab3 = 0x4
sample_mask Flag.cstopb = 0x400
sample_mask Flag.cread = 0x800
sample_mask Flag.parenb = 0x1000
sample_mask Flag.parodd = 0x2000
sample_mask Flag.hupcl = 0x4000
sample_mask Flag.clocal = 0x8000
sample_mask Flag.crtscts = 0x30000
sample_mask Flag.isig = 0x80
sample_mask Flag.icanon = 0x100
sample_mask Flag.echo = 0x8
sample_mask Flag.echoe = 0x2
sample_mask Flag.echok = 0x4
sample_mask Flag.echonl = 0x10
sample_mask Flag.noflsh = 0x80000000
sample_mask Flag.tostop = 0x400000
sample_mask Flag.echoctl = 0x40
sample_mask Flag.echoprt = 0x20
sample_mask Flag.echoke = 0x1
sample_mask Flag.flusho = 0x800000
sample_mask Flag.pendin = 0x20000000
sample_mask Flag.iexten = 0x400

unfoldable pub sample_slot : ControlChar → ℕ
sample_slot ControlChar.vintr = 8
sample_slot ControlChar.vquit = 9
sample_slot ControlChar.verase = 3
sample_slot ControlChar.vkill = 5
sample_slot ControlChar.veof = 0
sample_slot ControlChar.veol = 1
sample_slot ControlChar.vmin = 16
sample_slot ControlChar.vtime = 17
sample_slot ControlChar.veol2 = 2
sample_slot ControlChar.vsusp = 10
sample_slot ControlChar.vstart = 12
sample_slot ControlChar.vstop = 13
sample_slot ControlChar.vreprint = 6
sample_slot ControlChar.vdiscard = 15
sample_slot ControlChar.vwerase = 4
sample_slot ControlChar.vlnext = 14

unfoldable pub sample_baud : Baud → ℕ
sample_baud Baud.b0 = 0
sample_baud Baud.b50 = 50
sample_baud Baud.b75 = 75
sample_baud Baud.b110 = 110
sample_baud Baud.b134 = 134
sample_baud Baud.b150 = 150
sample_baud Baud.b200 = 200
sample_baud Baud.b300 = 300
sample_baud Baud.b600 = 600
sample_baud Baud.b1200 = 1200
sample_baud Baud.b1800 = 1800
sample_baud Baud.b2400 = 2400
sample_baud Baud.b4800 = 4800
sample_baud Baud.b9600 = 9600
sample_baud Baud.b19200 = 19200
sample_baud Baud.b38400 = 38400
sample_baud Baud.b57600 = 57600
sample_baud Baud.b115200 = 115200

abbrev pub sample : Sdk
sample = record {
  mask = λ f. word_of (sample_mask f);
  csize = shift_left (word_of linux_csize) 4;
  slot = sample_slot;
  posix_vdisable = 0xff;
  baud = sample_baud;
}

char_of : ℕ → ControlChar
char_of i =
    (if i == 14
      then ControlChar.vlnext
      else (if i == 4
          then ControlChar.vwerase
          else (if i == 15
              then ControlChar.vdiscard
              else (if i == 6
                  then ControlChar.vreprint
                  else (if i == 13
                      then ControlChar.vstop
                      else (if i == 12
                          then ControlChar.vstart
                          else (if i == 10
                              then ControlChar.vsusp
                              else (if i == 2
                                  then ControlChar.veol2
                                  else (if i == 17
                                      then ControlChar.vtime
                                      else (if i == 16
                                          then ControlChar.vmin
                                          else (if i == 1
                                              then ControlChar.veol
                                              else (if i == 0
                                                  then ControlChar.veof
                                                  else (if i == 5
                                                      then ControlChar.vkill
                                                      else (if i == 3
                                                          then ControlChar.verase
                                                          else (if i == 9
                                                            then ControlChar.vquit
                                                            else (if i == 8
                                                            then ControlChar.vintr
                                                            else ControlChar.vmin))))))))))))))))

char_of_lem : (c : ControlChar) → char_of (sample_slot c) ≡ c
unfolding char_of sample_slot
char_of_lem ControlChar.vintr = refl
char_of_lem ControlChar.vquit = refl
char_of_lem ControlChar.verase = refl
char_of_lem ControlChar.vkill = refl
char_of_lem ControlChar.veof = refl
char_of_lem ControlChar.veol = refl
char_of_lem ControlChar.vmin = refl
char_of_lem ControlChar.vtime = refl
char_of_lem ControlChar.veol2 = refl
char_of_lem ControlChar.vsusp = refl
char_of_lem ControlChar.vstart = refl
char_of_lem ControlChar.vstop = refl
char_of_lem ControlChar.vreprint = refl
char_of_lem ControlChar.vdiscard = refl
char_of_lem ControlChar.vwerase = refl
char_of_lem ControlChar.vlnext = refl

pub sample_slot-injective : (c d : ControlChar) → sample_slot c ≡ sample_slot d → c ≡ d
sample_slot-injective c d e = sym (char_of_lem c) ∙ ap char_of e ∙ char_of_lem d
