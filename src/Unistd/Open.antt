-- ===== src/Unistd/Open.antt =====
-- `open` of core/unistd.c: the flags and the mode that reach the kernel.
use lib_system_and_linker.Prelude.{
  ◌%◌, ◌^◌, ℕ, ◌≡◌, refl, ap, ◌∙◌, ◌&&◌, ◌||◌, if◌then◌else◌, Bool, true, false, Bool-cases, inl,
  inr, List, [], ◌∷◌, arith,
}
use lib_system_and_linker.Termios.Words.{Word, word_of, common, has, or_word}
use lib_system_and_linker.Termios.Masks.{common-sym}
use lib_system_and_linker.Unistd.{
  OpenFlag, o_creat, o_accmode, o_trunc, o_wronly, o_rdwr, open_flags, lx_flag, convert_open,
  open_file, lx_o_largefile,
}

module _ (darwin : OpenFlag → Word) where
  -- Some flag of the list that is set brings bit `i`.
  unfoldable brings : List OpenFlag → Word → ℕ → Bool
  brings [] flags i = false
  brings (f ∷ fs) flags i = (word_of (lx_flag f) i && has flags (darwin f)) || brings fs flags i

  convert_open-bit :
      (fs : List OpenFlag) (flags uflags : Word) (i : ℕ)
      → convert_open darwin fs flags uflags i ≡ (uflags i || brings fs flags i)
  unfolding convert_open brings
  convert_open-bit [] flags uflags i = ground arith
  convert_open-bit (f ∷ fs) flags uflags i = elim (Bool-cases (has flags (darwin f))) [
    | inl on ↦
        ground (arith, on, convert_open-bit fs flags (or_word uflags (word_of (lx_flag f))) i)
    | inr off ↦ ground (arith, off, convert_open-bit fs flags uflags i)
  ]

  open-bit :
      (mode_bits : ℕ) (flags : Word) (mode_arg i : ℕ)
      → (open_file darwin mode_bits flags mode_arg).uflags i
        ≡ (word_of lx_o_largefile i || brings open_flags flags i)
  unfolding open_file
  open-bit mode_bits flags mode_arg i = convert_open-bit open_flags flags (word_of lx_o_largefile) i

  brings-trunc : (flags : Word) → brings open_flags flags 9 ≡ has flags (darwin o_trunc)
  unfolding brings word_of lx_flag
  brings-trunc flags = ground arith

  brings-access :
      (flags : Word)
      → (brings open_flags flags 0 ≡ (has flags (darwin o_accmode) || has flags (darwin o_wronly)))
        × (brings open_flags flags 1 ≡ (has flags (darwin o_accmode) || has flags (darwin o_rdwr)))
  unfolding brings word_of lx_flag
  brings-access flags = (ground arith, ground arith)

  -- Flags with any bit of O_ACCMODE, so O_WRONLY as well as O_RDWR, reach the kernel with both bits of
  -- the access mode set.
  pub open_access_mode :
      (mode_bits : ℕ) (flags : Word) (mode_arg : ℕ)
      → has flags (darwin o_accmode) ≡ true
      → ((open_file darwin mode_bits flags mode_arg).uflags 0 ≡ true)
        × ((open_file darwin mode_bits flags mode_arg).uflags 1 ≡ true)
  open_access_mode mode_bits flags mode_arg h =
      let (write, both) = brings-access flags in
      (
        ground (arith, open-bit mode_bits flags mode_arg 0, write, h),
        ground (arith, open-bit mode_bits flags mode_arg 1, both, h),
      )

  only_nine : (w : Word) → common 32 (word_of 0x200) w ≡ w 9
  unfolding common word_of
  only_nine w = ground arith

  has-bit_nine : (w : Word) → has w (word_of 0x200) ≡ w 9
  has-bit_nine w = common-sym 32 w (word_of 0x200) ∙ only_nine w

  largefile-nine : (b : Bool) → (word_of lx_o_largefile 9 || b) ≡ b
  unfolding word_of
  largefile-nine b = refl

  open-mode :
      (mode_bits : ℕ) (flags : Word) (mode_arg : ℕ)
      → (open_file darwin mode_bits flags mode_arg).mode ≡ (
          if has ((open_file darwin mode_bits flags mode_arg).uflags) (darwin o_creat)
          then mode_arg % 2 ^ mode_bits
          else 0)
  unfolding open_file
  open-mode mode_bits flags mode_arg = refl

  -- Where O_CREAT is 0x200, as on Darwin, the mode, cut to the width of mode_t, reaches the kernel exactly where O_TRUNC is among
  -- the flags, with O_CREAT or without it; otherwise it is 0.
  pub open_drops_mode :
      (mode_bits : ℕ) (flags : Word) (mode_arg : ℕ)
      → darwin o_creat ≡ word_of 0x200
      → (open_file darwin mode_bits flags mode_arg).mode
        ≡ (if has flags (darwin o_trunc) then mode_arg % 2 ^ mode_bits else 0)
  open_drops_mode mode_bits flags mode_arg h =
      open-mode mode_bits flags mode_arg
      ∙ ap (λ b. if b then mode_arg % 2 ^ mode_bits else 0) tested
    where
      uflags : Word
      uflags = (open_file darwin mode_bits flags mode_arg).uflags

      tested : has uflags (darwin o_creat) ≡ has flags (darwin o_trunc)
      tested =
          ap (has uflags) h
          ∙ has-bit_nine uflags
          ∙ open-bit mode_bits flags mode_arg 9
          ∙ largefile-nine (brings open_flags flags 9)
          ∙ brings-trunc flags
