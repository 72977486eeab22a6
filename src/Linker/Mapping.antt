-- ===== src/Linker/Mapping.antt =====
-- `MachObject::instantiateFromFile` of core/lnk_macho.cpp, with core/lnk_mm.cpp: the mappings that it
-- makes for an image.
pub mod Layout
pub mod Segments
pub mod Loaded
mod Runs
use lib_system_and_linker.Prelude.{
  ℕ, zero, suc, ◌+◌, ◌-◌, ◌*◌, ◌%◌, ◌^◌, ◌≤◌, ◌<◌, ◌≡◌, ◌==◌, leb, ltb, ◌&&◌, not, if◌then◌else◌,
  Bool, true, false, Option, none, some, List, [], ◌∷◌, ◌++◌, length,
}
use lib_system_and_linker.Linker.Stream.{Result, done, halts, strays, ◌>>=◌}
use lib_system_and_linker.Linker.Rebase.{word_mod}
use lib_system_and_linker.Linker.Commands.{
  SegmentCommand, Command, segment, unix_thread, routines, dylib, symtab, dysymtab, dyld_info,
  other, Commands, read_commands,
}

abbrev pub Multiple : ℕ → ℕ → Type 0
Multiple n x = (k : ℕ) × (x ≡ k * n)

-- `round_page` of the host: the least multiple of the page's size that is not below a number, where
-- that is a word.
pub record Paging : Type 0 where
  pub page_size : ℕ
  pub round_page : ℕ → ℕ
  pub round_page-Multiple : (x : ℕ) → Multiple page_size (round_page x)
  pub le-round_page : (x : ℕ) → x + page_size ≤ word_mod → x ≤ round_page x
  pub round_page-least : (x y : ℕ) → Multiple page_size y → x ≤ y → y < word_mod → round_page x ≤ y

-- A call of `mmap`: its address and length, and the offset in the file.
pub data Mapping : Type 0 where
  anonymous : ℕ → ℕ → Mapping
  from_file : ℕ → ℕ → ℕ → Mapping

-- What is read of a file: whether the header's magic is MH_MAGIC, its `ncmds`, and the buffer with the
-- commands, from 0 on.
pub record MachFile : Type 0 where
  pub has_magic : Bool
  pub ncmds : ℕ
  pub commands : Commands

-- The new object, the entry that `linker_image_table_add` gets, and the calls of `mmap` in their order.
pub record Instance : Type 0 where
  pub slide : ℕ
  pub header : ℕ
  pub is_split_seg : Bool
  pub table_entry : ℕ × ℕ
  pub mappings : List Mapping

-- The array of segments, which has 64 places, and `map_size`.
unfoldable pub collect_segments :
    List (ℕ × Command) → List SegmentCommand → ℕ → Result (List SegmentCommand × ℕ)
collect_segments [] segs map_size = done (segs, map_size)
collect_segments ((a, segment seg) ∷ cs) segs map_size =
    let rest = collect_segments cs (segs ++ (seg ∷ [])) ((map_size + seg.vmsize) % word_mod) in
    if leb 64 (length segs) then strays else rest
collect_segments ((a, _) ∷ cs) segs map_size = collect_segments cs segs map_size

module _ (p : Paging) where
  -- The file's part of a segment, and zeroes behind it where nothing is reserved.
  unfoldable pub map_segment : ℕ → SegmentCommand → List Mapping
  map_segment bias seg =
      let mm_filesize = p.round_page seg.filesize in
      let mm_vmsize = p.round_page seg.vmsize in
      let delta = (mm_vmsize + word_mod - mm_filesize) % word_mod in
      from_file (p.round_page ((seg.vmaddr + bias) % word_mod)) mm_filesize seg.fileoff
      ∷ (if not (delta == 0) && bias == 0
          then anonymous (p.round_page ((seg.vmaddr + bias + mm_filesize) % word_mod)) delta ∷ []
          else [])

  unfoldable pub map_segments : ℕ → List SegmentCommand → List Mapping
  unfolding map_segment
  map_segments bias [] = []
  map_segments bias (seg ∷ segs) = map_segment bias seg ++ map_segments bias segs

  -- `reserved` is the address that `mmap` gives for a range of a size.
  unfoldable pub map_image : (ℕ → ℕ) → ℕ → SegmentCommand → List SegmentCommand → Instance
  unfolding map_segments
  map_image reserved map_size first rest =
      let bias = if first.vmaddr == 0 then reserved map_size else 0 in
      record {
        slide = bias;
        header = (first.vmaddr + bias) % word_mod;
        is_split_seg = bias == 0;
        table_entry = ((first.vmaddr + bias) % word_mod, first.vmsize);
        mappings =
            (if first.vmaddr == 0 then anonymous bias map_size ∷ [] else [])
            ++ map_segments bias (first ∷ rest);
      }

  unfoldable pub instantiate_from_file : (ℕ → ℕ) → MachFile → Result Instance
  unfolding collect_segments map_image read_commands
  instantiate_from_file reserved file = elim file.has_magic [
    | false ↦ halts
    | true ↦
        collect_segments (read_commands file.commands file.ncmds 0) [] 0 >>= λ (segs, map_size).
        elim segs [ [] ↦ halts | first ∷ rest ↦ done (map_image reserved map_size first rest) ]
  ]

-- What a byte of memory holds: 0, or the byte of the file at an offset.
pub data Content : Type 0 where
  zeroed : Content
  file_byte : ℕ → Content

-- What a call maps. `mmap` of core/mmap.c refuses an offset that is no multiple of 4096, and its result is
-- not looked at; the kernel is taken to grant what it is asked for.
abbrev pub covered : Mapping → ℕ → Option Content
covered (anonymous start size) a = if leb start a && ltb a (start + size) then some zeroed else none
covered (from_file start size off) a =
    if off % 4096 == 0 && (leb start a && ltb a (start + size))
    then some (file_byte (off + (a - start)))
    else none

-- A mapping takes the place of those before it.
unfoldable pub content : List Mapping → ℕ → Option Content
content [] a = none
content (m ∷ ms) a = elim (content ms a) [ none ↦ covered m a | some c ↦ some c ]
