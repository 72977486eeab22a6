-- ===== src/Linker/Classic/Slides.antt =====
-- What the loop of `classicRebase` of core/lnk_macho.cpp leaves in memory.
use lib_system_and_linker.Prelude.{
  ℕ, ◌+◌, ◌%◌, ◌≤◌, ◌<◌, ◌≡◌, ◌≢◌, ◌⊎◌, ◌∙◌, refl, true, false, List, [], ◌∷◌, ◌++◌, arith, inl,
  inr,
}
use lib_system_and_linker.Linker.Stream.{done, halts}
use lib_system_and_linker.Linker.Rebase.{Memory, load_word, word_mod}
use lib_system_and_linker.Linker.Bind.Apply.Stores.{load-store, store-outside}
use lib_system_and_linker.Linker.Commands.{SegmentCommand, MachObject}
use lib_system_and_linker.Linker.Classic.{
  Relocation, plain, scattered, vanilla, pb_la_ptr, unknown, add_slide, segment_addr,
  classic_rebase, relocate, relocate_all,
}

-- An entry that is known: of a word, not absolute, of a known type.
abbrev pub Known : Relocation → Type 0
Known (plain address is_abs is_word is_vanilla) =
    (is_abs ≡ false) × (is_word ≡ true) × (is_vanilla ≡ true)
Known (scattered address is_word type) = (is_word ≡ true) × (type ≢ unknown)

abbrev pub AllKnown : List Relocation → Type 0
AllKnown [] = Unit
AllKnown (r ∷ rs) = Known r × AllKnown rs

-- The addresses of the words that the entries move.
abbrev pub place : ℕ → Relocation → List ℕ
place base (plain address is_abs is_word is_vanilla) = (address + base) % word_mod ∷ []
place base (scattered address is_word vanilla) = address % word_mod ∷ []
place base (scattered address is_word pb_la_ptr) = []
place base (scattered address is_word unknown) = []

unfoldable pub places : ℕ → List Relocation → List ℕ
places base [] = []
places base (r ∷ rs) = place base r ++ places base rs

-- The words at a list of addresses have no byte in common with the word at an address.
abbrev pub Apart : ℕ → List ℕ → Type 0
Apart a [] = Unit
Apart a (b ∷ bs) = ((a + 4 ≤ b) ⊎ (b + 4 ≤ a)) × Apart a bs

abbrev pub Disjoint : List ℕ → Type 0
Disjoint [] = Unit
Disjoint (a ∷ as') = Apart a as' × Disjoint as'

-- No byte of the words at the addresses is at `x`.
abbrev pub Elsewhere : ℕ → List ℕ → Type 0
Elsewhere x [] = Unit
Elsewhere x (a ∷ as') = ((x < a) ⊎ (a + 4 ≤ x)) × Elsewhere x as'

-- The words at the addresses are those of `m` plus the slide.
abbrev pub Moved : ℕ → Memory → Memory → List ℕ → Type 0
Moved slide m m' [] = Unit
Moved slide m m' (a ∷ as') =
    (load_word m' a ≡ (load_word m a + slide) % word_mod) × Moved slide m m' as'

unfoldable pub slide_all : ℕ → List ℕ → Memory → Memory
slide_all slide [] m = m
slide_all slide (a ∷ as') m = slide_all slide as' (add_slide slide a m)

relocate_all-slides :
    (slide base : ℕ) (rs : List Relocation) (m : Memory)
    → AllKnown rs
    → relocate_all slide base rs m ≡ done (slide_all slide (places base rs) m)
unfolding relocate_all relocate places slide_all
relocate_all-slides slide base [] m h = refl
relocate_all-slides slide base (plain address is_abs is_word is_vanilla ∷ rs) m ((n, w, v), h) =
    rw (n, w, v)
      (relocate_all-slides slide base rs (add_slide slide ((address + base) % word_mod) m) h)
relocate_all-slides slide base (scattered address is_word vanilla ∷ rs) m ((w, t), h) =
    rw w (relocate_all-slides slide base rs (add_slide slide (address % word_mod) m) h)
relocate_all-slides slide base (scattered address is_word pb_la_ptr ∷ rs) m ((w, t), h) =
    rw w (relocate_all-slides slide base rs m h)
relocate_all-slides slide base (scattered address is_word unknown ∷ rs) m ((w, t), h) =
    absurd (t refl)

slide_all-Elsewhere :
    (slide : ℕ) (as' : List ℕ) (m : Memory) (x : ℕ)
    → Elsewhere x as'
    → slide_all slide as' m x ≡ m x
unfolding slide_all add_slide
slide_all-Elsewhere slide [] m x h = refl
slide_all-Elsewhere slide (a ∷ as') m x (here, h) =
    slide_all-Elsewhere slide as' (add_slide slide a m) x h
    ∙ store-outside m a ((load_word m a + slide) % word_mod) x here

pub Apart-byte : (a x : ℕ) (as' : List ℕ) → a ≤ x → x < a + 4 → Apart a as' → Elsewhere x as'
Apart-byte a x [] lo hi h = tt
Apart-byte a x (b ∷ bs) lo hi (inl l, h) = (inl (omega arith), Apart-byte a x bs lo hi h)
Apart-byte a x (b ∷ bs) lo hi (inr r, h) = (inr (omega arith), Apart-byte a x bs lo hi h)

pub word-eq :
    (m m' : Memory) (a : ℕ)
    → ((x : ℕ) → a ≤ x → x < a + 4 → m' x ≡ m x)
    → load_word m' a ≡ load_word m a
word-eq m m' a same = omega (
  arith,
  same a (omega arith) (omega arith),
  same (a + 1) (omega arith) (omega arith),
  same (a + 2) (omega arith) (omega arith),
  same (a + 3) (omega arith) (omega arith),
)

slide_all-Apart :
    (slide a : ℕ) (as' : List ℕ) (m : Memory)
    → Apart a as'
    → load_word (slide_all slide as' m) a ≡ load_word m a
slide_all-Apart slide a as' m h =
    word-eq m (slide_all slide as' m) a
      (λ x lo hi. slide_all-Elsewhere slide as' m x (Apart-byte a x as' lo hi h))

add_slide-word :
    (slide a : ℕ) (m : Memory)
    → load_word (add_slide slide a m) a ≡ (load_word m a + slide) % word_mod
unfolding add_slide
add_slide-word slide a m = load-store m a ((load_word m a + slide) % word_mod) (omega arith)

add_slide-apart :
    (slide a b : ℕ) (m : Memory)
    → (a + 4 ≤ b) ⊎ (b + 4 ≤ a)
    → load_word (add_slide slide a m) b ≡ load_word m b
unfolding add_slide
add_slide-apart slide a b m h =
    word-eq m (add_slide slide a m) b
      (λ x lo hi. store-outside m a ((load_word m a + slide) % word_mod) x (ground (arith, h)))

Moved-before :
    (slide a : ℕ) (as' : List ℕ) (m m' : Memory)
    → Apart a as'
    → Moved slide (add_slide slide a m) m' as'
    → Moved slide m m' as'
Moved-before slide a [] m m' h k = tt
Moved-before slide a (b ∷ bs) m m' (here, h) (moved, k) =
    (rw (add_slide-apart slide a b m here) at moved, Moved-before slide a bs m m' h k)

slide_all-Moved :
    (slide : ℕ) (as' : List ℕ) (m : Memory)
    → Disjoint as'
    → Moved slide m (slide_all slide as' m) as'
unfolding slide_all
slide_all-Moved slide [] m h = tt
slide_all-Moved slide (a ∷ as') m (apart, h) = (
  slide_all-Apart slide a as' (add_slide slide a m) apart ∙ add_slide-word slide a m,
  Moved-before slide a as' m (slide_all slide as' (add_slide slide a m)) apart
      (slide_all-Moved slide as' (add_slide slide a m) h),
)

relocate-unknown :
    (slide base : ℕ) (r : Relocation) (m : Memory) → ¬ Known r → relocate slide base r m ≡ halts
unfolding relocate
relocate-unknown slide base (plain address true is_word is_vanilla) m h = refl
relocate-unknown slide base (plain address false false is_vanilla) m h = refl
relocate-unknown slide base (plain address false true false) m h = refl
relocate-unknown slide base (plain address false true true) m h = absurd (h (refl, refl, refl))
relocate-unknown slide base (scattered address false type) m h = refl
relocate-unknown slide base (scattered address true vanilla) m h = absurd (h (refl, λ e. cc))
relocate-unknown slide base (scattered address true pb_la_ptr) m h = absurd (h (refl, λ e. cc))
relocate-unknown slide base (scattered address true unknown) m h = refl

relocate_all-unknown :
    (slide base : ℕ) (rs : List Relocation) (r : Relocation) (rest : List Relocation) (m : Memory)
    → AllKnown rs
    → ¬ Known r
    → relocate_all slide base (rs ++ (r ∷ rest)) m ≡ halts
unfolding relocate_all relocate
relocate_all-unknown slide base [] r rest m h k = rw (relocate-unknown slide base r m k) refl
relocate_all-unknown slide base (plain address is_abs is_word is_vanilla ∷ rs) r rest m
      ((n, w, v), h) k =
    rw (n, w, v)
      (relocate_all-unknown slide base rs r rest (add_slide slide ((address + base) % word_mod) m) h
        k)
relocate_all-unknown slide base (scattered address is_word vanilla ∷ rs) r rest m ((w, t), h) k =
    rw w (relocate_all-unknown slide base rs r rest (add_slide slide (address % word_mod) m) h k)
relocate_all-unknown slide base (scattered address is_word pb_la_ptr ∷ rs) r rest m ((w, t), h) k =
    rw w (relocate_all-unknown slide base rs r rest m h k)
relocate_all-unknown slide base (scattered address is_word unknown ∷ rs) r rest m ((w, t), h) k =
    absurd (t refl)

module _ (o : MachObject) (seg : SegmentCommand) (segs : List SegmentCommand)
    (has_segment : o.segments ≡ seg ∷ segs) (has_table : o.dynamic_info ≢ 0) where
  classic_rebase-eq :
      (rs : List Relocation) (m : Memory)
      → classic_rebase false rs o m ≡ relocate_all o.slide (segment_addr o.slide seg) rs m
  unfolding classic_rebase
  classic_rebase-eq rs m = ground (arith, has_segment, has_table)

  -- In an image that is not split, with a segment and a dynamic symbol table: where all entries are
  -- known and the words that they name have no byte in common, each of these words is `fSlide` further
  -- on, modulo 2^32, and no other byte is changed; where the first entries are known and the next one is
  -- not, the linker halts.
  pub classic_rebase_moves :
      (rs : List Relocation) (m : Memory)
      → AllKnown rs
      → Disjoint (places (segment_addr o.slide seg) rs)
      → (m' : Memory) × (classic_rebase false rs o m ≡ done m')
        × Moved o.slide m m' (places (segment_addr o.slide seg) rs)
        × ((x : ℕ) → Elsewhere x (places (segment_addr o.slide seg) rs) → m' x ≡ m x)
        × ((r : Relocation) (rest : List Relocation)
            → ¬ Known r
            → classic_rebase false (rs ++ (r ∷ rest)) o m ≡ halts)
  classic_rebase_moves rs m known disjoint =
      let base = segment_addr o.slide seg in
      (
        slide_all o.slide (places base rs) m,
        classic_rebase-eq rs m ∙ relocate_all-slides o.slide base rs m known,
        slide_all-Moved o.slide (places base rs) m disjoint,
        λ x away. slide_all-Elsewhere o.slide (places base rs) m x away,
        λ r rest k.
            classic_rebase-eq (rs ++ (r ∷ rest)) m
            ∙ relocate_all-unknown o.slide base rs r rest m known k,
      )
