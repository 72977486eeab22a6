-- ===== src/Linker/Mapping/Segments.antt =====
-- The segments that `MachObject::instantiateFromFile` of core/lnk_macho.cpp collects, and their sizes.
use mathlib.Core.List.{append-nil, append_assoc}
use lib_system_and_linker.Prelude.{
  ℕ, zero, suc, ◌+◌, ◌%◌, ◌≤◌, ◌<◌, ◌≡◌, refl, ◌∙◌, leb, false, some, List, [], ◌∷◌, ◌++◌, length,
  length-append, get_elem?, arith,
}
use lib_system_and_linker.Linker.Stream.{done}
use lib_system_and_linker.Linker.Rebase.{word_mod}
use lib_system_and_linker.Linker.Commands.{
  SegmentCommand, Command, segment, unix_thread, routines, dylib, symtab, dysymtab, dyld_info,
  other,
}
use lib_system_and_linker.Linker.Commands.Parsed.{all_of, segment_of}
use lib_system_and_linker.Linker.Mapping.{collect_segments}
use lib_system_and_linker.Linker.Mapping.Layout.{Contiguous, Contiguous-le}

unfoldable pub sizes : List SegmentCommand → ℕ
sizes [] = 0
sizes (seg ∷ segs) = seg.vmsize + sizes segs

pub collect_segments-eq :
    (cs : List (ℕ × Command)) (segs : List SegmentCommand) (size : ℕ)
    → length segs + length (all_of segment_of cs) ≤ 64
    → size < word_mod
    → collect_segments cs segs size
      ≡ done (segs ++ all_of segment_of cs, (size + sizes (all_of segment_of cs)) % word_mod)
unfolding collect_segments all_of sizes
collect_segments-eq [] segs size room small =
    let same : (size + 0) % word_mod ≡ size = omega arith in rw (same, append-nil segs)
collect_segments-eq ((a, segment seg) ∷ cs) segs size room small =
    let some_room : leb 64 (length segs) ≡ false = ground arith in
    let size' : (size + seg.vmsize) % word_mod < word_mod = omega arith in
    let sum : ((size + seg.vmsize) % word_mod + sizes (all_of segment_of cs)) % word_mod
        ≡ (size + (seg.vmsize + sizes (all_of segment_of cs))) % word_mod =
      omega arith in
    rw some_room (
      collect_segments-eq cs (segs ++ (seg ∷ [])) ((size + seg.vmsize) % word_mod)
        (omega (arith, length-append {0} segs (seg ∷ []))) size'
      ∙ rw (sum, append_assoc segs (seg ∷ []) (all_of segment_of cs)) refl)
collect_segments-eq ((a, unix_thread pc) ∷ cs) segs size room small =
    collect_segments-eq cs segs size room small
collect_segments-eq ((a, routines init) ∷ cs) segs size room small =
    collect_segments-eq cs segs size room small
collect_segments-eq ((a, dylib path r) ∷ cs) segs size room small =
    collect_segments-eq cs segs size room small
collect_segments-eq ((a, symtab st sy) ∷ cs) segs size room small =
    collect_segments-eq cs segs size room small
collect_segments-eq ((a, dysymtab) ∷ cs) segs size room small =
    collect_segments-eq cs segs size room small
collect_segments-eq ((a, dyld_info o x y) ∷ cs) segs size room small =
    collect_segments-eq cs segs size room small
collect_segments-eq ((a, other) ∷ cs) segs size room small =
    collect_segments-eq cs segs size room small

pub Contiguous-sizes :
    (n v : ℕ) (segs : List SegmentCommand) (e : ℕ) → Contiguous n v segs e → v + sizes segs ≡ e
unfolding sizes
Contiguous-sizes n v [] e h = omega arith
Contiguous-sizes n v (seg ∷ segs) e h =
    omega (arith, Contiguous-sizes n (v + seg.vmsize) segs e h.3)

pub segment_end-le :
    (n e v : ℕ) (segs : List SegmentCommand) (i : ℕ) (seg : SegmentCommand)
    → Contiguous n v segs e
    → get_elem? segs i ≡ some seg
    → seg.vmaddr + seg.vmsize ≤ e
segment_end-le n e v [] i seg h f = cc
segment_end-le n e v (s ∷ segs) zero seg h f =
    ground (arith, Contiguous-le n (v + s.vmsize) segs e h.3)
segment_end-le n e v (s ∷ segs) (suc i) seg h f = segment_end-le n e (v + s.vmsize) segs i seg h.3 f
