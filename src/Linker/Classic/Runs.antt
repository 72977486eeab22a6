-- ===== src/Linker/Classic/Runs.antt =====
-- Relocations of a small library for core/lnk_macho.cpp.
use lib_system_and_linker.Prelude.{ℕ, ◌≡◌, refl, true, false, List, [], ◌∷◌, ◌++◌, arith, inl}
use lib_system_and_linker.Linker.Stream.{done, halts}
use lib_system_and_linker.Linker.Rebase.{Memory}
use lib_system_and_linker.Linker.Commands.{SegmentName, SegmentCommand, MachObject, new_object}
use lib_system_and_linker.Linker.Classic.{
  Relocation, plain, scattered, pb_la_ptr, segment_addr, classic_rebase,
}
use lib_system_and_linker.Linker.Classic.Slides.{
  Known, AllKnown, places, Disjoint, Moved, Elsewhere, classic_rebase_moves,
}

abbrev text : SegmentCommand
text = record {
  name = SegmentName.text;
  vmaddr = 0;
  vmsize = 0x3000;
  fileoff = 0;
  filesize = 0x3000;
  is_writable = false;
  sections = [];
}

abbrev object : MachObject
object = record (new_object 0x40000000) { segments = text ∷ []; dynamic_info = 0x100 }

abbrev relocations : List Relocation
relocations =
    plain 0x2000 false true true
    ∷ (scattered 0x40002010 true pb_la_ptr ∷ (plain 0x2004 false true true ∷ []))

disjoint : Disjoint (places (segment_addr 0x40000000 text) relocations)
unfolding places
disjoint = ((inl (omega arith), tt), (tt, tt))

known : AllKnown relocations
known = ((refl, refl, refl), ((refl, λ e. cc), ((refl, refl, refl), tt)))

classic_rebase_moves_example :
    (m' : Memory) × (classic_rebase false relocations object (λ a. 0) ≡ done m')
    × Moved 0x40000000 (λ a. 0) m' (places (segment_addr 0x40000000 text) relocations)
    × ((x : ℕ) → Elsewhere x (places (segment_addr 0x40000000 text) relocations) → m' x ≡ 0)
    × ((r : Relocation) (rest : List Relocation)
        → ¬ Known r
        → classic_rebase false (relocations ++ (r ∷ rest)) object (λ a. 0) ≡ halts)
classic_rebase_moves_example =
    classic_rebase_moves object text [] refl (omega arith) relocations (λ a. 0) known disjoint
