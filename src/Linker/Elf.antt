-- ===== src/Linker/Elf.antt =====
-- core/lnk_elf.cpp: the mappings and the dynamic segment of an ELF file.
pub mod Relocations
pub mod Range
mod Runs
use lib_system_and_linker.Prelude.{
  ℕ, zero, suc, ◌+◌, ◌-◌, ◌*◌, ◌/◌, ◌%◌, ◌^◌, ◌==◌, ltb, ◌&&◌, if◌then◌else◌, Bool, true, false,
  Option, none, some, List, [], ◌∷◌, ◌++◌,
}
use lib_system_and_linker.Linker.Stream.{Result, done, halts, strays, ◌>>=◌}
use lib_system_and_linker.Linker.Rebase.{word_mod}
use lib_system_and_linker.Linker.Mapping.{Mapping, anonymous, from_file}

-- `p_type`: PT_LOAD, PT_DYNAMIC, or another.
pub data SegmentType : Type 0 where
  load : SegmentType
  dynamic : SegmentType
  other : SegmentType

pub record ProgramHeader : Type 0 where
  pub type : SegmentType
  pub vaddr : ℕ
  pub memsz : ℕ
  pub filesz : ℕ
  pub offset : ℕ

abbrev pub is_load : SegmentType → Bool
is_load load = true
is_load dynamic = false
is_load other = false

abbrev pub is_dynamic : SegmentType → Bool
is_dynamic load = false
is_dynamic dynamic = true
is_dynamic other = false

-- The loop over the program headers that finds `max_vaddr` and `min_vaddr`.
unfoldable pub vaddr_range : List ProgramHeader → ℕ → ℕ → ℕ × ℕ
vaddr_range [] max_vaddr min_vaddr = (max_vaddr, min_vaddr)
vaddr_range (ph ∷ phs) max_vaddr min_vaddr =
    let end_addr : ℕ = (ph.vaddr + ph.memsz) % word_mod in
    vaddr_range phs (if is_load ph.type && ltb max_vaddr end_addr then end_addr else max_vaddr)
      (if is_load ph.type && ltb ph.vaddr min_vaddr then ph.vaddr else min_vaddr)

-- `& ~PAGE_MASK`, where the size of a page is a power of 2.
abbrev pub page_start : ℕ → ℕ → ℕ
page_start page_size x = x / page_size * page_size

unfoldable pub range_size : ℕ → List ProgramHeader → ℕ
unfolding vaddr_range
range_size page_size phs =
    let (max_vaddr, min_vaddr) = vaddr_range phs 0 0 in
    (page_start page_size ((max_vaddr + page_size + word_mod - 1) % word_mod)
      + word_mod
      - page_start page_size min_vaddr)
    % word_mod

-- The second loop, with the reserved range at `rs`: the mappings, and the address of the dynamic
-- segment, 0 where there is none.
unfoldable pub wire_segments : ℕ → List ProgramHeader → ℕ → List Mapping × ℕ
wire_segments rs [] dyn = ([], dyn)
wire_segments rs (ph ∷ phs) dyn =
    let (ms, d) =
      wire_segments rs phs (if is_dynamic ph.type then (rs + ph.vaddr) % word_mod else dyn) in
    (
      if is_load ph.type
          then from_file ((rs + ph.vaddr) % word_mod) ph.filesz ph.offset ∷ ms
          else ms,
      d,
    )

-- The entries of the dynamic segment, by `d_tag`, with `d_un.d_val` where it is read.
pub data Dyn : Type 0 where
  rel_sz : ℕ → Dyn
  rel : ℕ → Dyn
  plt_rel_sz : ℕ → Dyn
  jmp_rel : ℕ → Dyn
  plt_rel : Dyn
  rela : Dyn
  strtab : ℕ → Dyn
  needed : ℕ → Dyn
  symtab : ℕ → Dyn
  unknown : Dyn

pub record ElfObject : Type 0 where
  pub slide : ℕ
  pub header : ℕ
  pub rel : ℕ
  pub rel_size : ℕ
  pub plt_rel : ℕ
  pub plt_rel_size : ℕ
  pub strtab : ℕ
  pub symtab : ℕ

abbrev pub place : ElfObject → ℕ → ℕ
place o val = (o.header + val) % word_mod

-- The switch of `parseDynamicSegment`. The library that is needed is only logged.
unfoldable pub parse_dyn : Dyn → ElfObject → Result ElfObject
parse_dyn (rel_sz val) o = done (record o { rel_size = val })
parse_dyn (rel val) o = done (record o { rel = place o val })
parse_dyn (plt_rel_sz val) o = done (record o { plt_rel_size = val })
parse_dyn (jmp_rel val) o = done (record o { plt_rel = place o val })
parse_dyn plt_rel o = done o
parse_dyn rela o = halts
parse_dyn (strtab val) o = done (record o { strtab = place o val })
parse_dyn (needed val) o = if o.strtab == 0 then halts else done o
parse_dyn (symtab val) o = done (record o { symtab = place o val })
parse_dyn unknown o = done o

unfoldable pub parse_dyns : List Dyn → ElfObject → Result ElfObject
unfolding parse_dyn
parse_dyns [] o = done o
parse_dyns (d ∷ ds) o = parse_dyn d o >>= parse_dyns ds

-- The type of a relocation: one of those that the first switch of `readReloc` knows, or another.
pub data RelocType : Type 0 where
  ignored : RelocType
  invalid : RelocType

pub record Rel : Type 0 where
  pub type : RelocType
  pub sym : ℕ

-- The switch for a relocation with a symbol.
abbrev pub first_switch : RelocType → Result (Unit {0})
first_switch ignored = done tt
first_switch invalid = halts

-- The switch for all relocations: it has no case but the default.
abbrev pub second_switch : Unit {0} → Result (Unit {0})
second_switch u = halts

-- One round of `readReloc`: the name of a relocation's symbol is read through `fSymtab`, which may be NULL.
unfoldable pub read_entry : ℕ → Rel → Result (Unit {0})
read_entry symbols r =
    (if r.sym == 0 then done tt else (if symbols == 0 then strays else first_switch r.type))
    >>= second_switch

-- `readReloc`, where `entry` is the relocation at an address, which may be NULL, and eight bytes hold one.
unfoldable pub read_rels : ℕ → (ℕ → Rel) → ℕ → ℕ → Result (Unit {0})
unfolding read_entry
read_rels symbols entry zero a = done tt
read_rels symbols entry (suc count) a =
    (if a == 0 then strays else read_entry symbols (entry a)) >>= λ u.
    read_rels symbols entry count (a + 8)

unfoldable pub read_reloc : ℕ → (ℕ → Rel) → ℕ → ℕ → Result (Unit {0})
unfolding read_rels
read_reloc symbols entry a size = read_rels symbols entry (size / 8) a

-- The file: whether its magic is that of ELF, its program headers, and what the mapped image holds at an
-- address: the entries of a dynamic segment up to its end, and relocations.
pub record ElfFile : Type 0 where
  pub has_magic : Bool
  pub headers : List ProgramHeader
  pub dynamic_at : ℕ → List Dyn
  pub rel_at : ℕ → Rel

unfoldable pub parse_dynamic_segment : ElfFile → ℕ → ElfObject → Result ElfObject
unfolding parse_dyns read_reloc
parse_dynamic_segment f dyn o =
    if dyn == 0
    then halts
    else (parse_dyns (f.dynamic_at dyn) o >>= λ p.
        read_reloc p.symtab f.rel_at p.rel p.rel_size >>= λ u.
        read_reloc p.symtab f.rel_at p.plt_rel p.plt_rel_size >>= λ v. done p)

-- The new object, with the image at `rs`.
abbrev pub new_elf_object : ℕ → ElfObject
new_elf_object rs = record {
  slide = rs;
  header = rs;
  rel = 0;
  rel_size = 0;
  plt_rel = 0;
  plt_rel_size = 0;
  strtab = 0;
  symtab = 0;
}

-- `instantiateFromFile`: the calls of `mmap`, and the object. `reserved` is the address that `mmap` gives
-- for a range of a size. NULL is returned in place of the object.
unfoldable pub instantiate_elf : ℕ → (ℕ → ℕ) → ElfFile → Result (List Mapping × ElfObject)
unfolding range_size wire_segments parse_dynamic_segment
instantiate_elf page_size reserved f = elim f.has_magic [
  | false ↦ halts
  | true ↦
      let size = range_size page_size f.headers in
      let rs = reserved size in
      let (ms, dyn) = wire_segments rs f.headers 0 in
      parse_dynamic_segment f dyn (new_elf_object rs) >>= λ o. done (anonymous rs size ∷ ms, o)
]
