-- ===== src/Termios/Speed.antt =====
-- The speed of a terminal through `bsd_to_linux_termios` and `linux_to_bsd_termios` of
-- core/darwin_ioctl.c.
use lib_system_and_linker.Prelude.{
  ℕ, zero, suc, ◌<◌, ◌≡◌, ◌≢◌, refl, ◌∙◌, ap, not, ◌&&◌, if◌then◌else◌, Bool, true, false,
  Bool-cases, ℕ_discrete, inl, inr, List, [], ◌∷◌, arith,
}
use lib_system_and_linker.Termios.Words.{
  Word, word_of, has, or_word, and_word, shift_left, shift_right, agree,
}
use lib_system_and_linker.Termios.Names.{
  Flag, linux_mask, control_flags, Baud, linux_baud, sptab, linux_csize, linux_cbaud,
}
use lib_system_and_linker.Termios.Convert.{
  convert_flags, Sdk, BsdTermios, LinuxTermios, linux_word, minus_one, bsd_to_linux_speed,
  linux_to_bsd_speed, bsd_to_linux_termios, linux_to_bsd_termios,
}
use lib_system_and_linker.Termios.RoundTrip.{speed-cases}

-- `f` holds below `n`.
unfoldable all_below : ℕ → (ℕ → Bool) → Bool
all_below zero f = true
all_below (suc n) f = f n && all_below n f

all_below-get : (n : ℕ) (f : ℕ → Bool) (i : ℕ) → all_below n f ≡ true → i < n → f i ≡ true
unfolding all_below
all_below-get zero f i h l = absurd (omega arith)
all_below-get (suc n) f i h l = elim (ℕ_discrete i n) [
  | yes e ↦ rw e (ground arith)
  | no ne ↦ all_below-get n f i (ground arith) (omega arith)
]

agree-cong : (n : ℕ) (w v u : Word) → ((i : ℕ) → i < n → v i ≡ u i) → agree n w v ≡ agree n w u
unfolding agree
agree-cong zero w v u h = refl
agree-cong (suc n) w v u h =
    ground (arith, h n (omega arith), agree-cong n w v u (λ i l. h i (omega arith)))

speed-cong :
    (baud : Baud → ℕ) (v u : Word) (bs : List Baud)
    → ((i : ℕ) → i < 32 → v i ≡ u i)
    → linux_to_bsd_speed baud v bs ≡ linux_to_bsd_speed baud u bs
unfolding linux_to_bsd_speed
speed-cong baud v u [] h = refl
speed-cong baud v u (b ∷ bs) h =
    ground (arith, agree-cong 32 (word_of (linux_baud b)) v u h, speed-cong baud v u bs h)

-- No mask of the list has bit `i`.
unfoldable untouched : (Flag → Word) → List Flag → ℕ → Bool
untouched mask [] i = true
untouched mask (f ∷ fs) i = not (mask f i) && untouched mask fs i

convert_flags-untouched :
    (source target : Flag → Word) (fs : List Flag) (w acc : Word) (i : ℕ)
    → untouched target fs i ≡ true
    → convert_flags source target fs w acc i ≡ acc i
unfolding convert_flags untouched
convert_flags-untouched source target [] w acc i h = refl
convert_flags-untouched source target (f ∷ fs) w acc i h = elim (Bool-cases (has w (source f))) [
  | inl on ↦ ground (
    arith,
    on,
    convert_flags-untouched source target fs w (or_word acc (target f)) i (ground arith),
  )
  | inr off ↦ ground (arith, off, convert_flags-untouched source target fs w acc i (ground arith))
]

-- At a bit of CBAUD there is no control flag and no CSIZE; a speed has no other bits.
abbrev fits : Baud → ℕ → Bool
fits b i =
    if word_of linux_cbaud i
    then untouched linux_word control_flags i
      && not (shift_right (shift_left (word_of linux_csize) 4) 4 i)
    else not (word_of (linux_baud b) i)

speed-fits : (b : Baud) → all_below 32 (fits b) ≡ true
unfolding all_below word_of untouched linux_mask linux_baud
speed-fits Baud.b0 = refl
speed-fits Baud.b50 = refl
speed-fits Baud.b75 = refl
speed-fits Baud.b110 = refl
speed-fits Baud.b134 = refl
speed-fits Baud.b150 = refl
speed-fits Baud.b200 = refl
speed-fits Baud.b300 = refl
speed-fits Baud.b600 = refl
speed-fits Baud.b1200 = refl
speed-fits Baud.b1800 = refl
speed-fits Baud.b2400 = refl
speed-fits Baud.b4800 = refl
speed-fits Baud.b9600 = refl
speed-fits Baud.b19200 = refl
speed-fits Baud.b38400 = refl
speed-fits Baud.b57600 = refl
speed-fits Baud.b115200 = refl

speed_self :
    (baud : Baud → ℕ) (b : Baud) → linux_to_bsd_speed baud (word_of (linux_baud b)) sptab ≡ baud b
unfolding linux_to_bsd_speed word_of linux_baud agree
speed_self baud Baud.b0 = refl
speed_self baud Baud.b50 = refl
speed_self baud Baud.b75 = refl
speed_self baud Baud.b110 = refl
speed_self baud Baud.b134 = refl
speed_self baud Baud.b150 = refl
speed_self baud Baud.b200 = refl
speed_self baud Baud.b300 = refl
speed_self baud Baud.b600 = refl
speed_self baud Baud.b1200 = refl
speed_self baud Baud.b1800 = refl
speed_self baud Baud.b2400 = refl
speed_self baud Baud.b4800 = refl
speed_self baud Baud.b9600 = refl
speed_self baud Baud.b19200 = refl
speed_self baud Baud.b38400 = refl
speed_self baud Baud.b57600 = refl
speed_self baud Baud.b115200 = refl

module _ (sdk : Sdk) where
  code-kept :
      (bios : BsdTermios) (b : Baud) (i : ℕ)
      → sdk.csize ≡ shift_left (word_of linux_csize) 4
      → bsd_to_linux_speed sdk.baud bios.c_ispeed sptab ≡ linux_baud b
      → i < 32
      → ((bsd_to_linux_termios sdk bios).c_cflag i && word_of linux_cbaud i)
        ≡ word_of (linux_baud b) i
  unfolding bsd_to_linux_termios
  code-kept bios b i size e l = elim (Bool-cases (word_of linux_cbaud i)) [
    | inl in_mask ↦ ground (
      arith,
      in_mask,
      ap (λ n. word_of n i) e,
      no_size (ground (arith, in_mask, fit)),
      convert_flags-untouched sdk.mask linux_word control_flags bios.c_cflag
          (or_word (word_of (bsd_to_linux_speed sdk.baud bios.c_ispeed sptab))
            (shift_right (and_word bios.c_cflag sdk.csize) 4))
          i (ground (arith, in_mask, fit)),
    )
    | inr outside ↦ ground (arith, outside, fit)
  ]
    where
      fit : fits b i ≡ true
      fit = all_below-get 32 (fits b) i (speed-fits b) l

      no_size :
          shift_right (shift_left (word_of linux_csize) 4) 4 i ≡ false
          → shift_right (and_word bios.c_cflag sdk.csize) 4 i ≡ false
      no_size h = ground (arith, h, ap (λ c. shift_right c 4 i) size)

  -- A speed of `sptab` that is the input speed comes back as both speeds, whatever the flags and the
  -- character size, where CSIZE is that of Linux four bits higher.
  pub speed_roundtrip :
      (bios : BsdTermios)
      → sdk.csize ≡ shift_left (word_of linux_csize) 4
      → bsd_to_linux_speed sdk.baud bios.c_ispeed sptab ≢ minus_one
      → let back : BsdTermios = linux_to_bsd_termios sdk (bsd_to_linux_termios sdk bios) in
        (back.c_ispeed ≡ bios.c_ispeed) × (back.c_ospeed ≡ bios.c_ispeed)
  unfolding linux_to_bsd_termios
  speed_roundtrip bios size known = (back, back)
    where
      lios : LinuxTermios
      lios = bsd_to_linux_termios sdk bios

      back :
          linux_to_bsd_speed sdk.baud (and_word lios.c_cflag (word_of linux_cbaud)) sptab
          ≡ bios.c_ispeed
      back = elim (speed-cases sdk.baud bios.c_ispeed sptab) [
        | inl none_found ↦ absurd (known none_found)
        | inr (b, e, q) ↦
            speed-cong sdk.baud (and_word lios.c_cflag (word_of linux_cbaud))
              (word_of (linux_baud b)) sptab (λ i l. code-kept bios b i size e l)
            ∙ speed_self sdk.baud b
            ∙ q
      ]

convert_flags-keeps :
    (source target : Flag → Word) (fs : List Flag) (w acc : Word) (i : ℕ)
    → acc i ≡ true
    → convert_flags source target fs w acc i ≡ true
unfolding convert_flags
convert_flags-keeps source target [] w acc i h = h
convert_flags-keeps source target (f ∷ fs) w acc i h = elim (Bool-cases (has w (source f))) [
  | inl on ↦
      ground (
        arith,
        on,
        convert_flags-keeps source target fs w (or_word acc (target f)) i (ground arith),
      )
  | inr off ↦ ground (arith, off, convert_flags-keeps source target fs w acc i h)
]

minus_one-bits : all_below 32 (word_of minus_one) ≡ true
unfolding all_below word_of
minus_one-bits = refl

-- An input speed that is not in `sptab` sets every bit of the Linux `c_cflag`.
pub unsupported_speed :
    (sdk : Sdk) (bios : BsdTermios) (i : ℕ)
    → bsd_to_linux_speed sdk.baud bios.c_ispeed sptab ≡ minus_one
    → i < 32
    → (bsd_to_linux_termios sdk bios).c_cflag i ≡ true
unfolding bsd_to_linux_termios
unsupported_speed sdk bios i h l =
    convert_flags-keeps sdk.mask linux_word control_flags bios.c_cflag _ i (
      ground
        (arith, ap (λ n. word_of n i) h, all_below-get 32 (word_of minus_one) i minus_one-bits l))
