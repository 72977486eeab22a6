-- ===== src/Termios/Masks.antt =====
-- Masks that have no bit in common, for the conversions of core/darwin_ioctl.c.
use lib_system_and_linker.Prelude.{
  ℕ, zero, suc, ◌≡◌, refl, not, ◌&&◌, ◌||◌, Bool, true, false, Bool-cases, inl, inr, List, [], ◌∷◌,
  arith,
}
use lib_system_and_linker.Termios.Words.{Word, word_of, common, has, or_word}
use lib_system_and_linker.Termios.Names.{Flag}
use lib_system_and_linker.Termios.Convert.{convert_flags}

-- Some flag of the list has a bit of `m`.
unfoldable pub overlaps : (Flag → Word) → List Flag → Word → Bool
overlaps mask [] m = false
overlaps mask (f ∷ fs) m = has (mask f) m || overlaps mask fs m

-- The masks of the flags are not 0 and no two have a bit in common.
unfoldable pub separate : (Flag → Word) → List Flag → Bool
unfolding overlaps
separate mask [] = true
separate mask (f ∷ fs) =
    has (mask f) (mask f) && not (overlaps mask fs (mask f)) && separate mask fs

-- `w` and `v` agree on each of the flags, under the masks `a` and `b`.
pub data SameFlags (a b : Flag → Word) (w v : Word) : List Flag → Type 0 where
  none_left : SameFlags a b w v []
  flag_more :
      {f : Flag}
      → {fs : List Flag} → has w (a f) ≡ has v (b f)
      → SameFlags a b w v fs
      → SameFlags a b w v (f ∷ fs)

pub common-sym : (n : ℕ) (w m : Word) → common n w m ≡ common n m w
unfolding common
common-sym zero w m = refl
common-sym (suc n) w m = ground (arith, common-sym n w m)

pub common-or : (n : ℕ) (w v m : Word) → common n (or_word w v) m ≡ (common n w m || common n v m)
unfolding common
common-or zero w v m = refl
common-or (suc n) w v m = ground (arith, common-or n w v m)

pub has-zero : (n : ℕ) (m : Word) → common n (word_of 0) m ≡ false
unfolding common word_of
has-zero zero m = refl
has-zero (suc n) m = ground (arith, has-zero n m)

pub overlaps-or :
    (mask : Flag → Word) (fs : List Flag) (w v : Word)
    → overlaps mask fs w ≡ false
    → overlaps mask fs v ≡ false
    → overlaps mask fs (or_word w v) ≡ false
unfolding overlaps
overlaps-or mask [] w v h k = refl
overlaps-or mask (f ∷ fs) w v h k = ground (
  arith,
  common-sym 32 (mask f) (or_word w v),
  common-sym 32 (mask f) w,
  common-sym 32 (mask f) v,
  common-or 32 w v (mask f),
  overlaps-or mask fs w v,
)

pub overlaps-zero : (mask : Flag → Word) (fs : List Flag) → overlaps mask fs (word_of 0) ≡ false
unfolding overlaps
overlaps-zero mask [] = refl
overlaps-zero mask (f ∷ fs) =
    ground (arith, common-sym 32 (mask f) (word_of 0), has-zero 32 (mask f), overlaps-zero mask fs)

module _ (source target : Flag → Word) where
  -- Bits of other flags stay as they are.
  convert-other :
      (fs : List Flag) (w acc m : Word)
      → overlaps target fs m ≡ false
      → has (convert_flags source target fs w acc) m ≡ has acc m
  unfolding convert_flags overlaps
  convert-other [] w acc m h = refl
  convert-other (f ∷ fs) w acc m h = elim (Bool-cases (has w (source f))) [
    | inl on ↦
        ground
          (arith, on, convert-other fs w (or_word acc (target f)) m, common-or 32 acc (target f) m)
    | inr off ↦ ground (arith, off, convert-other fs w acc m)
  ]

  -- Every flag of the list is set where the source's is.
  pub convert-flags :
      (fs : List Flag) (w acc : Word)
      → separate target fs ≡ true
      → overlaps target fs acc ≡ false
      → SameFlags target source (convert_flags source target fs w acc) w fs
  unfolding convert_flags overlaps separate
  convert-flags [] w acc h k = none_left
  convert-flags (f ∷ fs) w acc h k = elim (Bool-cases (has w (source f))) [
    | inl on ↦
        let acc' : Word = or_word acc (target f) in
        flag_more
          (ground
            (arith, on, convert-other fs w acc' (target f), common-or 32 acc (target f) (target f)))
          (rw on (
            convert-flags fs w acc' (ground arith)
              (overlaps-or target fs acc (target f) (ground arith) (ground arith))))
    | inr off ↦
        flag_more
          (ground (arith, off, convert-other fs w acc (target f), common-sym 32 acc (target f)))
          (rw off (convert-flags fs w acc (ground arith) (ground arith)))
  ]
