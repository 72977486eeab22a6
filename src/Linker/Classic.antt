-- ===== src/Linker/Classic.antt =====
-- `doRebase` and `classicRebase` of core/lnk_macho.cpp: the relocations of an image without the rebase
-- opcodes, and the choice between the two.
pub mod Slides
pub mod Binds
mod Runs
use lib_system_and_linker.Prelude.{
  ℕ, zero, suc, ◌+◌, ◌-◌, ◌%◌, ◌^◌, ◌==◌, if◌then◌else◌, Bool, true, false, Option, none, some,
  List, [], ◌∷◌,
}
use lib_system_and_linker.Linker.Stream.{Result, done, halts, strays, ◌>>=◌}
use lib_system_and_linker.Linker.Rebase
use lib_system_and_linker.Linker.Rebase.{
  Memory, load_word, store_word, word_mod, Segment, Opcode, read_rebase,
}
use lib_system_and_linker.Linker.Commands.{SegmentCommand, MachObject}

-- The `r_type` of a scattered entry: GENERIC_RELOC_VANILLA, ARM_RELOC_PB_LA_PTR, or another.
pub data ScatteredType : Type 0 where
  vanilla : ScatteredType
  pb_la_ptr : ScatteredType
  unknown : ScatteredType

-- An entry, without R_SCATTERED in its `r_address` or with it. The arguments are the address; whether
-- `r_symbolnum` is R_ABS; whether `r_length` is RELOC_SIZE; and whether the type is
-- GENERIC_RELOC_VANILLA, or which type it is.
pub data Relocation : Type 0 where
  plain : ℕ → Bool → Bool → Bool → Relocation
  scattered : ℕ → Bool → ScatteredType → Relocation

-- `segActualLoadAddr` of a segment.
abbrev pub segment_addr : ℕ → SegmentCommand → ℕ
segment_addr slide seg = (seg.vmaddr + slide) % word_mod

unfoldable pub first_writable : ℕ → List SegmentCommand → Result ℕ
first_writable slide [] = halts
first_writable slide (seg ∷ segs) =
    if seg.is_writable then done (segment_addr slide seg) else first_writable slide segs

-- An image with no segment has NULL for its first.
unfoldable pub classic_reloc_base : Bool → MachObject → Result ℕ
unfolding first_writable
classic_reloc_base is_split_seg o =
    if is_split_seg
    then first_writable o.slide o.segments
    else elim o.segments [ [] ↦ strays | seg ∷ segs ↦ done (segment_addr o.slide seg) ]

-- `*pp = *pp + slide`
unfoldable pub add_slide : ℕ → ℕ → Memory → Memory
unfolding store_word
add_slide slide a m = store_word m a ((load_word m a + slide) % word_mod)

-- A round. The place of a scattered entry is taken from `fSegmentSlides[1]`, which is 0 in every image:
-- nothing writes to that array.
unfoldable pub relocate : ℕ → ℕ → Relocation → Memory → Result Memory
unfolding add_slide
relocate slide base (plain address is_abs is_word is_vanilla) m =
    if is_abs
    then halts
    else (if is_word
        then (if is_vanilla then done (add_slide slide ((address + base) % word_mod) m) else halts)
        else halts)
relocate slide base (scattered address is_word type) m =
    if is_word
    then elim type [
      | vanilla ↦ done (add_slide slide (address % word_mod) m)
      | pb_la_ptr ↦ done m
      | unknown ↦ halts
    ]
    else halts

unfoldable pub relocate_all : ℕ → ℕ → List Relocation → Memory → Result Memory
unfolding relocate
relocate_all slide base [] m = done m
relocate_all slide base (r ∷ rs) m = relocate slide base r m >>= relocate_all slide base rs

-- `relocations` are the `nlocrel` entries at `fLinkEditBase + locreloff`.
unfoldable pub classic_rebase : Bool → List Relocation → MachObject → Memory → Result Memory
unfolding classic_reloc_base relocate_all
classic_rebase is_split_seg relocations o m = do
  base ← classic_reloc_base is_split_seg o
  if o.dynamic_info == 0 then halts else relocate_all o.slide base relocations m

-- The bytes from `start` on.
unfoldable pub read_bytes : Memory → ℕ → ℕ → List ℕ
read_bytes m start zero = []
read_bytes m start (suc size) = m start ∷ read_bytes m (start + 1) size

-- The bytes of the rebase opcodes, from the base of the file; none where the end lies below the start.
unfoldable pub opcode_stream : Memory → ℕ → ℕ × ℕ → List ℕ
unfolding read_bytes
opcode_stream m base (off, size) =
    let start = (base + off) % word_mod in
    read_bytes m start ((base + off + size) % word_mod - start)

-- The opcodes and types of mach-o/loader.h, and what the array of segments leads to behind its last
-- entry.
pub record Format : Type 0 where
  pub decode : ℕ → Opcode × ℕ
  pub is_pointer : ℕ → Bool
  pub stale : ℕ → Segment

unfoldable pub spans : List SegmentCommand → List Segment
spans [] = []
spans (seg ∷ segs) = record { vmaddr = seg.vmaddr; vmsize = seg.vmsize } ∷ spans segs

-- The image as the loop over the opcodes sees it.
abbrev pub rebase_image : Format → ℕ → List SegmentCommand → Rebase.Image
rebase_image f slide segs = record {
  decode = f.decode;
  is_pointer = f.is_pointer;
  segments = spans segs;
  stale = f.stale;
  slide = slide;
}

-- A compressed image without `fDyldInfo` reads through NULL.
unfoldable pub do_rebase : Format → Bool → List Relocation → MachObject → Memory → Result Memory
unfolding classic_rebase opcode_stream spans
do_rebase f is_split_seg relocations o m = elim o.is_classic [
  | true ↦ if is_split_seg then done m else classic_rebase is_split_seg relocations o m
  | false ↦ elim o.dyld_info [
    | none ↦ strays
    | some info ↦
        read_rebase (rebase_image f o.slide o.segments) (opcode_stream m o.linkedit_base info) m
        >>= λ s. done s.memory
  ]
]
