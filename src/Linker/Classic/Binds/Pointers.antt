-- ===== src/Linker/Classic/Binds/Pointers.antt =====
-- Which pointers `classicBindIndirect` of core/lnk_macho.cpp binds, and to what.
use lib_system_and_linker.Prelude.{
  ℕ, zero, suc, ◌+◌, ◌/◌, ◌%◌, ◌≡◌, ◌∙◌, sym, refl, if◌then◌else◌, Bool-cases, inl, inr, List, [],
  ◌∷◌, ◌++◌,
}
use lib_system_and_linker.Linker.Stream.{Result, done, ◌>>=◌}
use lib_system_and_linker.Linker.Stream.Ensures.{bind_assoc, bind-ap}
use lib_system_and_linker.Linker.Rebase.{word_mod}
use lib_system_and_linker.Linker.Bind.{Request}
use lib_system_and_linker.Linker.Bind.Apply.{World}
use lib_system_and_linker.Linker.Commands.{
  Section, Command, segment, unix_thread, routines, dylib, symtab, dysymtab, dyld_info, other,
  SegmentCommand,
}
use lib_system_and_linker.Linker.Commands.Parsed.{all_of, segment_of}
use lib_system_and_linker.Linker.Classic.Binds.{
  Indirect, Tables, has_pointers, bind_pointer, bind_pointers, bind_sections, classic_bind_indirect,
}

-- The pointers of a section: the place of each with its entry of the table.
unfoldable pub entries : (ℕ → Indirect) → ℕ → ℕ → ℕ → List (ℕ × Indirect)
entries indirect zero index ptr = []
entries indirect (suc count) index ptr =
    (ptr, indirect index) ∷ entries indirect count ((index + 1) % word_mod) ((ptr + 4) % word_mod)

abbrev pub section_entries : Tables → ℕ → Section → List (ℕ × Indirect)
section_entries t slide sect =
    if has_pointers sect.type
    then entries t.indirect (sect.size / 4) sect.reserved1 ((sect.addr + slide) % word_mod)
    else []

-- Those of all sections of all segments.
unfoldable pub sections_entries : Tables → ℕ → List Section → List (ℕ × Indirect)
sections_entries t slide [] = []
sections_entries t slide (sect ∷ sects) =
    section_entries t slide sect ++ sections_entries t slide sects

unfoldable pub segments_entries : Tables → ℕ → List SegmentCommand → List (ℕ × Indirect)
unfolding sections_entries
segments_entries t slide [] = []
segments_entries t slide (seg ∷ segs) =
    sections_entries t slide seg.sections ++ segments_entries t slide segs

module _ (bind : Request → World → Result World) (t : Tables) (slide : ℕ) where
  unfoldable pub bind_entries : List (ℕ × Indirect) → World → Result World
  bind_entries [] w = done w
  bind_entries ((ptr, e) ∷ es) w = bind_pointer bind t slide e ptr w >>= bind_entries es

  bind_entries-append :
      (es fs : List (ℕ × Indirect)) (w : World)
      → bind_entries (es ++ fs) w ≡ (bind_entries es w >>= bind_entries fs)
  unfolding bind_entries
  bind_entries-append [] fs w = refl
  bind_entries-append ((ptr, e) ∷ es) fs w =
      bind-ap (bind_pointer bind t slide e ptr w) _ _ (bind_entries-append es fs)
      ∙ sym (bind_assoc (bind_pointer bind t slide e ptr w) (bind_entries es) (bind_entries fs))

  bind_pointers-eq :
      (count index ptr : ℕ) (w : World)
      → bind_pointers bind t slide count index ptr w
        ≡ bind_entries (entries t.indirect count index ptr) w
  unfolding bind_pointers entries bind_entries
  bind_pointers-eq zero index ptr w = refl
  bind_pointers-eq (suc count) index ptr w =
      bind-ap (bind_pointer bind t slide (t.indirect index) ptr w) _ _
        (bind_pointers-eq count ((index + 1) % word_mod) ((ptr + 4) % word_mod))

  bind_sections-eq :
      (sects : List Section) (w : World)
      → bind_sections bind t slide sects w ≡ bind_entries (sections_entries t slide sects) w
  unfolding bind_sections sections_entries bind_entries
  bind_sections-eq [] w = refl
  bind_sections-eq (sect ∷ sects) w =
      let here =
        entries t.indirect (sect.size / 4) sect.reserved1 ((sect.addr + slide) % word_mod) in
      elim (Bool-cases (has_pointers sect.type)) [
        | inl y ↦ rw y (
            rw (bind_pointers-eq (sect.size / 4) sect.reserved1 ((sect.addr + slide) % word_mod) w)
              (bind-ap (bind_entries here w) _ _ (bind_sections-eq sects)
                ∙ sym (bind_entries-append here (sections_entries t slide sects) w)))
        | inr n ↦ rw n (bind_sections-eq sects w)
      ]

  pub indirect-eq :
      (cs : List (ℕ × Command)) (w : World)
      → classic_bind_indirect bind t slide cs w
        ≡ bind_entries (segments_entries t slide (all_of segment_of cs)) w
  unfolding classic_bind_indirect segments_entries bind_entries all_of
  indirect-eq [] w = refl
  indirect-eq ((a, segment seg) ∷ cs) w = rw (bind_sections-eq seg.sections w) (
      bind-ap (bind_entries (sections_entries t slide seg.sections) w) _ _ (indirect-eq cs)
      ∙ sym (
          bind_entries-append (sections_entries t slide seg.sections)
            (segments_entries t slide (all_of segment_of cs)) w))
  indirect-eq ((a, unix_thread pc) ∷ cs) w = indirect-eq cs w
  indirect-eq ((a, routines init) ∷ cs) w = indirect-eq cs w
  indirect-eq ((a, dylib path r) ∷ cs) w = indirect-eq cs w
  indirect-eq ((a, symtab st sy) ∷ cs) w = indirect-eq cs w
  indirect-eq ((a, dysymtab) ∷ cs) w = indirect-eq cs w
  indirect-eq ((a, dyld_info o x y) ∷ cs) w = indirect-eq cs w
  indirect-eq ((a, other) ∷ cs) w = indirect-eq cs w
