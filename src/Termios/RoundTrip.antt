-- ===== src/Termios/RoundTrip.antt =====
-- Terminal attributes there and back through core/darwin_ioctl.c.
use lib_system_and_linker.Prelude.{
  ℕ, zero, suc, ◌≡◌, ◌≢◌, ◌⊎◌, refl, ◌∙◌, true, false, inl, inr, List, [], ◌∷◌, arith, ℕ_discrete,
}
use lib_system_and_linker.Termios.Words.{Word, word_of, common, and_word, shift_left, shift_right}
use lib_system_and_linker.Termios.Names.{
  Flag, linux_mask, input_flags, output_flags, control_flags, local_flags, Baud, linux_baud, sptab,
  linux_csize,
}
use lib_system_and_linker.Termios.Convert.{
  convert_flags, Sdk, BsdTermios, linux_word, minus_one, bsd_to_linux_speed, bsd_to_linux_termios,
  linux_to_bsd_termios,
}
use lib_system_and_linker.Termios.Masks.{
  separate, overlaps, SameFlags, none_left, flag_more, convert-flags, overlaps-zero, overlaps-or,
}

SameFlags-trans :
    (a b c : Flag → Word) (w v u : Word) (fs : List Flag)
    → SameFlags a b w v fs
    → SameFlags b c v u fs
    → SameFlags a c w u fs
SameFlags-trans a b c w v u [] none_left none_left = none_left
SameFlags-trans a b c w v u (f ∷ fs) (flag_more p ps) (flag_more q qs) =
    flag_more (p ∙ q) (SameFlags-trans a b c w v u fs ps qs)

-- Bits that a part of a word does not have stay off in it, behind a shift too.
common-right :
    (n : ℕ) (m w c : Word) (k : ℕ)
    → common n m (shift_right c k) ≡ false
    → common n m (shift_right (and_word w c) k) ≡ false
unfolding common
common-right zero m w c k h = refl
common-right (suc n) m w c k h = ground (arith, common-right n m w c k)

common-left :
    (n : ℕ) (m w c : Word) (k : ℕ)
    → common n m (shift_left c k) ≡ false
    → common n m (shift_left (and_word w c) k) ≡ false
unfolding common
common-left zero m w c k h = refl
common-left (suc n) m w c k h = ground (arith, common-left n m w c k)

overlaps-right :
    (mask : Flag → Word) (fs : List Flag) (w c : Word)
    → overlaps mask fs (shift_right c 4) ≡ false
    → overlaps mask fs (shift_right (and_word w c) 4) ≡ false
unfolding overlaps
overlaps-right mask [] w c h = refl
overlaps-right mask (f ∷ fs) w c h =
    ground (arith, common-right 32 (mask f) w c 4, overlaps-right mask fs w c)

overlaps-left :
    (mask : Flag → Word) (fs : List Flag) (w c : Word)
    → overlaps mask fs (shift_left c 4) ≡ false
    → overlaps mask fs (shift_left (and_word w c) 4) ≡ false
unfolding overlaps
overlaps-left mask [] w c h = refl
overlaps-left mask (f ∷ fs) w c h =
    ground (arith, common-left 32 (mask f) w c 4, overlaps-left mask fs w c)

pub speed-cases :
    (baud : Baud → ℕ) (speed : ℕ) (bs : List Baud)
    → (bsd_to_linux_speed baud speed bs ≡ minus_one)
      ⊎ ((b : Baud) × (bsd_to_linux_speed baud speed bs ≡ linux_baud b) × (baud b ≡ speed))
unfolding bsd_to_linux_speed
speed-cases baud speed [] = inl refl
speed-cases baud speed (b ∷ bs) = elim (ℕ_discrete (baud b) speed) [
  | yes e ↦ inr (b, ground arith, e)
  | no n ↦ elim (speed-cases baud speed bs) [
    | inl e ↦ inl (ground arith)
    | inr (c, e, q) ↦ inr (c, ground arith, q)
  ]
]

linux-separate :
    (separate linux_word input_flags ≡ true)
    × (separate linux_word output_flags ≡ true)
    × (separate linux_word control_flags ≡ true)
    × (separate linux_word local_flags ≡ true)
unfolding separate word_of linux_mask common overlaps
linux-separate = (refl, refl, refl, refl)

pub linux-size :
    overlaps linux_word control_flags (shift_right (shift_left (word_of linux_csize) 4) 4) ≡ false
unfolding overlaps word_of linux_mask common
linux-size = refl

linux-baud : (b : Baud) → overlaps linux_word control_flags (word_of (linux_baud b)) ≡ false
unfolding overlaps word_of linux_mask common linux_baud
linux-baud Baud.b0 = refl
linux-baud Baud.b50 = refl
linux-baud Baud.b75 = refl
linux-baud Baud.b110 = refl
linux-baud Baud.b134 = refl
linux-baud Baud.b150 = refl
linux-baud Baud.b200 = refl
linux-baud Baud.b300 = refl
linux-baud Baud.b600 = refl
linux-baud Baud.b1200 = refl
linux-baud Baud.b1800 = refl
linux-baud Baud.b2400 = refl
linux-baud Baud.b4800 = refl
linux-baud Baud.b9600 = refl
linux-baud Baud.b19200 = refl
linux-baud Baud.b38400 = refl
linux-baud Baud.b57600 = refl
linux-baud Baud.b115200 = refl

module _ (sdk : Sdk) where
  -- The conversion and back, with no bits put in beforehand.
  plain-back :
      (fs : List Flag) (w : Word)
      → separate linux_word fs ≡ true
      → separate sdk.mask fs ≡ true
      → SameFlags sdk.mask sdk.mask
          (convert_flags linux_word sdk.mask fs
            (convert_flags sdk.mask linux_word fs w (word_of 0))
            (word_of 0))
          w
          fs
  plain-back fs w h k =
      SameFlags-trans sdk.mask linux_word sdk.mask _ _ _ fs
        (convert-flags linux_word sdk.mask fs (convert_flags sdk.mask linux_word fs w (word_of 0))
          (word_of 0) k (overlaps-zero sdk.mask fs))
        (convert-flags sdk.mask linux_word fs w (word_of 0) h (overlaps-zero linux_word fs))

  -- Where the masks of termios.h of each flag word have no bit in common and CSIZE is that of Linux,
  -- four bits higher and apart from the control flags, all flags that the conversions know survive
  -- `bsd_to_linux_termios` and `linux_to_bsd_termios`, given an input speed of `sptab`.
  pub termios_roundtrip :
      (bios : BsdTermios)
      → separate sdk.mask input_flags ≡ true
      → separate sdk.mask output_flags ≡ true
      → separate sdk.mask control_flags ≡ true
      → separate sdk.mask local_flags ≡ true
      → sdk.csize ≡ shift_left (word_of linux_csize) 4
      → overlaps sdk.mask control_flags sdk.csize ≡ false
      → bsd_to_linux_speed sdk.baud bios.c_ispeed sptab ≢ minus_one
      → let back : BsdTermios = linux_to_bsd_termios sdk (bsd_to_linux_termios sdk bios) in
        SameFlags sdk.mask sdk.mask back.c_iflag bios.c_iflag input_flags
        × SameFlags sdk.mask sdk.mask back.c_oflag bios.c_oflag output_flags
        × SameFlags sdk.mask sdk.mask back.c_cflag bios.c_cflag control_flags
        × SameFlags sdk.mask sdk.mask back.c_lflag bios.c_lflag local_flags
  unfolding bsd_to_linux_termios linux_to_bsd_termios
  termios_roundtrip bios i o c l size apart known = (
    plain-back input_flags bios.c_iflag linux-separate.0 i,
    plain-back output_flags bios.c_oflag linux-separate.1 o,
    SameFlags-trans sdk.mask linux_word sdk.mask _ _ _ control_flags
        (convert-flags linux_word sdk.mask control_flags _ _ c (
          overlaps-left sdk.mask control_flags ((bsd_to_linux_termios sdk bios).c_cflag)
            (word_of linux_csize) (rw (← size) apart)))
        (convert-flags sdk.mask linux_word control_flags bios.c_cflag _ linux-separate.2 (
          overlaps-or linux_word control_flags _ _ speed_apart
            (overlaps-right linux_word control_flags bios.c_cflag sdk.csize (rw size linux-size)))),
    plain-back local_flags bios.c_lflag linux-separate.3 l,
  )
    where
      speed_apart :
          overlaps linux_word control_flags
            (word_of (bsd_to_linux_speed sdk.baud bios.c_ispeed sptab))
          ≡ false
      speed_apart = elim (speed-cases sdk.baud bios.c_ispeed sptab) [
        | inl none_found ↦ absurd (known none_found)
        | inr (b, e, q) ↦ rw e (linux-baud b)
      ]
