-- ===== src/Linker/Bootstrap/Agree.antt =====
-- `rebaseLinker` of core/lnk_bootstrap.cpp beside `parseLoadCommands` and `doRebase` of
-- core/lnk_macho.cpp.
use mathlib.Core.List.{append-nil, append_assoc}
use lib_system_and_linker.Prelude.{
  ℕ, ◌+◌, ◌≡◌, ◌≢◌, ◌∙◌, ap, sym, refl, leb, if◌then◌else◌, Bool, true, false, Bool-cases, Option,
  none, some, List, [], ◌∷◌, ◌++◌, length, length-append, arith, inl, inr,
}
use lib_system_and_linker.Linker.Stream.{Result, done, halts, spins, strays, ◌>>=◌}
use lib_system_and_linker.Linker.Rebase
use lib_system_and_linker.Linker.Rebase.{Memory, word_mod, read_rebase, rebase_compressed}
use lib_system_and_linker.Linker.Rebase.Agree.{rebase_compressed-agrees}
use lib_system_and_linker.Linker.Commands.{
  SegmentCommand, Command, segment, unix_thread, routines, dylib, symtab, dysymtab, dyld_info,
  other, new_object, set_classic, file_base, is_linkedit,
}
use lib_system_and_linker.Linker.Commands.Parsed.{
  last_of, all_of, segment_of, linkedit_of, dyld_of, has_dyld, Ordered, summary,
}
use lib_system_and_linker.Linker.Commands.Image.{unparsed}
use lib_system_and_linker.Linker.Classic.{
  Format, Relocation, opcode_stream, rebase_image, do_rebase,
}
use lib_system_and_linker.Linker.Bootstrap.{
  Found, see_segment, find_commands, rebase_found, nothing_found, rebase_linker,
}

abbrev pub linkedit_segment : ℕ × Command → Option (Option SegmentCommand)
linkedit_segment (a, segment seg) = if is_linkedit seg.name then some (some seg) else none
linkedit_segment (a, _) = none

-- Every LC_DYLD_INFO is LC_DYLD_INFO_ONLY.
abbrev pub OnlyCompressed : List (ℕ × Command) → Type 0
OnlyCompressed [] = Unit
OnlyCompressed ((a, dyld_info only off size) ∷ cs) = (only ≡ true) × OnlyCompressed cs
OnlyCompressed ((a, _) ∷ cs) = OnlyCompressed cs

abbrev found_with : List SegmentCommand → Option SegmentCommand → Option (ℕ × ℕ) → Found
found_with segs linkedit rebase = record { segments = segs; linkedit = linkedit; rebase = rebase }

abbrev found_of : Found → List (ℕ × Command) → Found
found_of f cs =
    found_with (f.segments ++ all_of segment_of cs) (last_of linkedit_segment f.linkedit cs)
      (last_of dyld_of f.rebase cs)

linkedit_step :
    (a : ℕ) (seg : SegmentCommand) (o : Option SegmentCommand)
    → (if is_linkedit seg.name then some seg else o)
      ≡ elim (linkedit_segment (a, segment seg)) [ none ↦ o | some b ↦ b ]
linkedit_step a seg o = elim (Bool-cases (is_linkedit seg.name)) [ inl y ↦ rw y | inr n ↦ rw n ]

find_commands-eq :
    (cs : List (ℕ × Command)) (f : Found) (slide base : ℕ)
    → Ordered slide (length f.segments) base cs
    → OnlyCompressed cs
    → find_commands cs f ≡ done (found_of f cs)
unfolding find_commands all_of last_of
find_commands-eq [] f slide base h only =
    ap (λ segs. done (found_with segs f.linkedit f.rebase)) (sym (append-nil f.segments))
find_commands-eq ((a, segment seg) ∷ cs) f slide base h only =
    let room : leb 64 (length f.segments) ≡ false = ground (arith, h.0) in
    let one_more : length (f.segments ++ (seg ∷ [])) ≡ length f.segments + 1 =
      omega (arith, length-append {0} f.segments (seg ∷ [])) in
    let ordered : Ordered slide (length (f.segments ++ (seg ∷ [])))
        (if is_linkedit seg.name then file_base slide seg else base) cs =
      rw one_more h.2 in
    rw room (
      find_commands-eq cs (see_segment seg f) slide _ ordered only
      ∙ ap
          (λ o. done (
            found_with ((f.segments ++ (seg ∷ [])) ++ all_of segment_of cs)
              (last_of linkedit_segment o cs) (last_of dyld_of f.rebase cs)))
          (linkedit_step a seg f.linkedit)
      ∙ ap
          (λ segs. done (
            found_with segs (last_of linkedit_segment f.linkedit ((a, segment seg) ∷ cs))
              (last_of dyld_of f.rebase cs)))
          (append_assoc f.segments (seg ∷ []) (all_of segment_of cs)))
find_commands-eq ((a, unix_thread pc) ∷ cs) f slide base h only =
    find_commands-eq cs f slide base h only
find_commands-eq ((a, routines init) ∷ cs) f slide base h only =
    find_commands-eq cs f slide base h only
find_commands-eq ((a, dylib path r) ∷ cs) f slide base h only =
    find_commands-eq cs f slide base h only
find_commands-eq ((a, symtab st sy) ∷ cs) f slide base h only =
    find_commands-eq cs f slide base h.1 only
find_commands-eq ((a, dysymtab) ∷ cs) f slide base h only = find_commands-eq cs f slide base h only
find_commands-eq ((a, dyld_info o x y) ∷ cs) f slide base h only =
    rw only.0 (find_commands-eq cs (record f { rebase = some (x, y) }) slide base h only.1)
find_commands-eq ((a, other) ∷ cs) f slide base h only = find_commands-eq cs f slide base h only

-- The base that belongs to the segment.
abbrev Based : ℕ → Option SegmentCommand → ℕ → Type 0
Based slide none base = Unit
Based slide (some seg) base = base ≡ file_base slide seg

last-Based :
    (slide : ℕ) (cs : List (ℕ × Command)) (o : Option SegmentCommand) (base : ℕ)
    → Based slide o base
    → Based slide (last_of linkedit_segment o cs) (last_of (linkedit_of slide) base cs)
unfolding last_of
last-Based slide [] o base h = h
last-Based slide ((a, segment seg) ∷ cs) o base h = elim (Bool-cases (is_linkedit seg.name)) [
  | inl y ↦ rw y (last-Based slide cs (some seg) (file_base slide seg) refl)
  | inr n ↦ rw n (last-Based slide cs o base h)
]
last-Based slide ((a, unix_thread pc) ∷ cs) o base h = last-Based slide cs o base h
last-Based slide ((a, routines init) ∷ cs) o base h = last-Based slide cs o base h
last-Based slide ((a, dylib path r) ∷ cs) o base h = last-Based slide cs o base h
last-Based slide ((a, symtab st sy) ∷ cs) o base h = last-Based slide cs o base h
last-Based slide ((a, dysymtab) ∷ cs) o base h = last-Based slide cs o base h
last-Based slide ((a, dyld_info x off size) ∷ cs) o base h = last-Based slide cs o base h
last-Based slide ((a, other) ∷ cs) o base h = last-Based slide cs o base h

has_dyld-true :
    (cs : List (ℕ × Command)) (d : Option (ℕ × ℕ)) (g : Bool) (info : ℕ × ℕ)
    → (d ≢ none → g ≡ true)
    → last_of dyld_of d cs ≡ some info
    → last_of has_dyld g cs ≡ true
unfolding last_of
has_dyld-true [] d g info h e = h (λ z. cc)
has_dyld-true ((a, segment seg) ∷ cs) d g info h e = has_dyld-true cs d g info h e
has_dyld-true ((a, unix_thread pc) ∷ cs) d g info h e = has_dyld-true cs d g info h e
has_dyld-true ((a, routines init) ∷ cs) d g info h e = has_dyld-true cs d g info h e
has_dyld-true ((a, dylib path r) ∷ cs) d g info h e = has_dyld-true cs d g info h e
has_dyld-true ((a, symtab st sy) ∷ cs) d g info h e = has_dyld-true cs d g info h e
has_dyld-true ((a, dysymtab) ∷ cs) d g info h e = has_dyld-true cs d g info h e
has_dyld-true ((a, dyld_info x off size) ∷ cs) d g info h e =
    has_dyld-true cs (some (off, size)) true info (λ z. refl) e
has_dyld-true ((a, other) ∷ cs) d g info h e = has_dyld-true cs d g info h e

abbrev memory_of : Result Rebase.State → Result Memory
memory_of r = r >>= λ s. done s.memory

memory-done :
    (r : Result Rebase.State) (m : Memory)
    → memory_of r ≡ done m
    → (t : Rebase.State) × (r ≡ done t) × (t.memory ≡ m)
memory-done (done t) m h = (t, refl, cc)
memory-done halts m h = cc
memory-done spins m h = cc
memory-done strays m h = cc

module _ (f : Format) (slide : ℕ) (cs : List (ℕ × Command)) (seg : SegmentCommand) (info : ℕ × ℕ)
    (has_linkedit : last_of linkedit_segment none cs ≡ some seg)
    (has_info : last_of dyld_of none cs ≡ some info) where
  -- Both on the same image and stream.
  do_rebase-eq :
      (garbage is_split_seg : Bool) (relocations : List Relocation) (m : Memory)
      → do_rebase f is_split_seg relocations
          (set_classic (summary (unparsed garbage (new_object slide)) cs))
          m
        ≡ memory_of (
            read_rebase
              (rebase_image f slide (all_of segment_of cs))
              (opcode_stream m (file_base slide seg) info)
              m)
  unfolding do_rebase
  do_rebase-eq garbage is_split_seg relocations m =
      let compressed = has_dyld-true cs none garbage info (λ z. absurd (z refl)) has_info in
      let based : last_of (linkedit_of slide) 0 cs ≡ file_base slide seg =
        rw has_linkedit at (last-Based slide cs none 0 tt) in
      rw (compressed, has_info, based) refl

  rebase_found-eq :
      (m : Memory)
      → rebase_found f slide (found_of nothing_found cs) m
        ≡ memory_of (
            rebase_compressed
              (rebase_image f slide (all_of segment_of cs))
              (opcode_stream m (file_base slide seg) info)
              m)
  unfolding rebase_found
  rebase_found-eq m = rw (has_info, has_linkedit) refl

  -- Where the commands are ordered, with a __LINKEDIT and with LC_DYLD_INFO_ONLY: if the linker parses
  -- and rebases an image with these commands as a library, to the end, then it leaves the same memory
  -- when it rebases itself with them.
  pub rebase_linker-agrees :
      (garbage is_split_seg : Bool) (relocations : List Relocation) (m m' : Memory)
      → Ordered slide 0 0 cs
      → OnlyCompressed cs
      → do_rebase f is_split_seg relocations
          (set_classic (summary (unparsed garbage (new_object slide)) cs))
          m
        ≡ done m'
      → rebase_linker f slide cs m ≡ done m'
  unfolding rebase_linker
  rebase_linker-agrees garbage is_split_seg relocations m m' ordered only h =
      let (t, read, e) =
        memory-done _ m' (sym (do_rebase-eq garbage is_split_seg relocations m) ∙ h) in
      let same =
        rebase_compressed-agrees (rebase_image f slide (all_of segment_of cs))
          (opcode_stream m (file_base slide seg) info) m t read in
      rw (find_commands-eq cs nothing_found slide 0 ordered only)
        (rebase_found-eq m ∙ ap memory_of same ∙ ap done e)
