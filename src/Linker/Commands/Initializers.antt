-- ===== src/Linker/Commands/Initializers.antt =====
-- `doInitialize` of core/lnk_macho.cpp: the initializers that it calls, and how often.
use lib_system_and_linker.Prelude.{
  Bool, none, some, Option, ℕ, zero, suc, ◌+◌, ◌/◌, ◌%◌, ◌≡◌, refl, ap, sym, ◌∙◌, if◌then◌else◌,
  true, false, List, [], ◌∷◌, ◌++◌, Bool-cases, inl, inr, arith,
}
use lib_system_and_linker.Linker.Stream.{Result, done, halts, spins, strays, ◌>>=◌}
use lib_system_and_linker.Linker.Stream.Ensures.{bind_assoc, bind-ap}
use lib_system_and_linker.Linker.Rebase.{Memory, load_word, word_mod}
use lib_system_and_linker.Linker.Commands.{
  SectionType, mod_init_func_pointers, non_lazy_symbol_pointers, lazy_symbol_pointers, Section,
  SegmentCommand, MachObject,
}

abbrev pub is_mod_init : SectionType → Bool
is_mod_init mod_init_func_pointers = true
is_mod_init non_lazy_symbol_pointers = false
is_mod_init lazy_symbol_pointers = false
is_mod_init SectionType.other = false

-- `inits[0]` up to `inits[count - 1]`, each read when the one before it has returned. `call` is a call
-- of an initializer.
module _ (call : ℕ → Memory → Result Memory) where
  unfoldable pub call_inits : ℕ → ℕ → Memory → Result Memory
  call_inits zero a m = done m
  call_inits (suc count) a m = call (load_word m a) m >>= call_inits count ((a + 4) % word_mod)

  unfoldable pub init_sections : ℕ → List Section → Memory → Result Memory
  unfolding call_inits
  init_sections slide [] m = done m
  init_sections slide (sect ∷ sects) m =
      (if is_mod_init sect.type
        then call_inits (sect.size / 4) ((sect.addr + slide) % word_mod) m
        else done m)
      >>= init_sections slide sects

  unfoldable pub init_segments : ℕ → List SegmentCommand → Memory → Result Memory
  unfolding init_sections
  init_segments slide [] m = done m
  init_segments slide (seg ∷ segs) m =
      init_sections slide seg.sections m >>= init_segments slide segs

  abbrev pub call_routine : ℕ → Option ℕ → Memory → Result Memory
  call_routine slide none m = done m
  call_routine slide (some init) m = call ((init + slide) % word_mod) m

  unfoldable pub do_initialize : MachObject → Memory → Result (MachObject × Memory)
  unfolding init_segments
  do_initialize o m = elim o.has_initialized [
    | true ↦ done (o, m)
    | false ↦ call_routine o.slide o.init_routine m >>= init_segments o.slide o.segments >>= λ m'.
        done (record o { has_initialized = true }, m')
  ]

-- The words of a table of `count` pointers.
unfoldable pub words : ℕ → ℕ → List ℕ
words zero a = []
words (suc count) a = a ∷ words count ((a + 4) % word_mod)

-- The words that hold the initializers of sections, and of segments.
unfoldable pub section_slots : ℕ → List Section → List ℕ
unfolding words
section_slots slide [] = []
section_slots slide (sect ∷ sects) =
    (if is_mod_init sect.type then words (sect.size / 4) ((sect.addr + slide) % word_mod) else [])
    ++ section_slots slide sects

unfoldable pub slots : ℕ → List SegmentCommand → List ℕ
unfolding section_slots
slots slide [] = []
slots slide (seg ∷ segs) = section_slots slide seg.sections ++ slots slide segs

module _ (call : ℕ → Memory → Result Memory) where
  -- Calls of what each of the words holds when its turn comes.
  unfoldable pub call_slots : List ℕ → Memory → Result Memory
  call_slots [] m = done m
  call_slots (a ∷ as') m = call (load_word m a) m >>= call_slots as'

  call_slots-append :
      (as' bs : List ℕ) (m : Memory)
      → call_slots (as' ++ bs) m ≡ (call_slots as' m >>= call_slots bs)
  unfolding call_slots
  call_slots-append [] bs m = refl
  call_slots-append (a ∷ as') bs m =
      bind-ap (call (load_word m a) m) _ _ (call_slots-append as' bs)
      ∙ sym (bind_assoc (call (load_word m a) m) (call_slots as') (call_slots bs))

  call_inits-slots :
      (count a : ℕ) (m : Memory) → call_inits call count a m ≡ call_slots (words count a) m
  unfolding call_slots words call_inits
  call_inits-slots zero a m = refl
  call_inits-slots (suc count) a m =
      bind-ap (call (load_word m a) m) _ _ (call_inits-slots count ((a + 4) % word_mod))

  init_sections-slots :
      (slide : ℕ) (sects : List Section) (m : Memory)
      → init_sections call slide sects m ≡ call_slots (section_slots slide sects) m
  unfolding init_sections section_slots call_slots
  init_sections-slots slide [] m = refl
  init_sections-slots slide (sect ∷ sects) m = elim (Bool-cases (is_mod_init sect.type)) [
    | inl y ↦ rw y (
        rw (call_inits-slots (sect.size / 4) ((sect.addr + slide) % word_mod) m) (
          bind-ap (call_slots (words (sect.size / 4) ((sect.addr + slide) % word_mod)) m) _ _
            (init_sections-slots slide sects)
          ∙ sym (
              call_slots-append (words (sect.size / 4) ((sect.addr + slide) % word_mod))
                (section_slots slide sects) m)))
    | inr n ↦ rw n (init_sections-slots slide sects m)
  ]

  init_segments-slots :
      (slide : ℕ) (segs : List SegmentCommand) (m : Memory)
      → init_segments call slide segs m ≡ call_slots (slots slide segs) m
  unfolding init_segments slots call_slots
  init_segments-slots slide [] m = refl
  init_segments-slots slide (seg ∷ segs) m = rw (init_sections-slots slide seg.sections m) (
      bind-ap (call_slots (section_slots slide seg.sections) m) _ _ (init_segments-slots slide segs)
      ∙ sym (call_slots-append (section_slots slide seg.sections) (slots slide segs) m))

  finished :
      (o o' : MachObject) (r : Result Memory) (m' : Memory)
      → ◌>>=◌ {B = MachObject × Memory} r (λ m. done (o, m)) ≡ done (o', m')
      → o' ≡ o
  finished o o' (done m) m' e = cc
  finished o o' halts m' e = cc
  finished o o' spins m' e = cc
  finished o o' strays m' e = cc

  already_done :
      (o : MachObject) (m : Memory)
      → o.has_initialized ≡ true
      → do_initialize call o m ≡ done (o, m)
  unfolding do_initialize
  already_done o m h = ground (arith, h)

  -- The first time, the LC_ROUTINES initializer and then what the slots hold is called, in the order of
  -- the segments and their sections; the next time nothing is.
  pub do_initialize_once :
      (o : MachObject) (m : Memory)
      → o.has_initialized ≡ false
      → (do_initialize call o m ≡ (
          call_routine call o.slide o.init_routine m
          >>= call_slots (slots o.slide o.segments)
          >>= λ m'. done (record o { has_initialized = true }, m')))
        × ((o' : MachObject) (m' m'' : Memory)
            → do_initialize call o m ≡ done (o', m')
            → do_initialize call o' m'' ≡ done (o', m''))
  unfolding do_initialize
  do_initialize_once o m fresh = (
    rw (do_initialize, fresh)
        (ap (λ r. r >>= λ m'. done (record o { has_initialized = true }, m'))
          (bind-ap (call_routine call o.slide o.init_routine m) _ _
            (init_segments-slots o.slide o.segments))),
    λ o' m' m'' e.
        let ran = rw (do_initialize, fresh) at e in
        let same =
          finished (record o { has_initialized = true }) o'
            (call_routine call o.slide o.init_routine m >>= init_segments call o.slide o.segments)
            m' ran in
        already_done o' m'' (ap (λ (x : MachObject). x.has_initialized) same),
  )
