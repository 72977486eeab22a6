-- ===== src/Linker/Elf/Runs.antt =====
-- A run of core/lnk_elf.cpp.
use lib_system_and_linker.Prelude.{ℕ, ◌+◌, ◌≡◌, ◌⊎◌, refl, true, List, [], ◌∷◌, arith}
use lib_system_and_linker.Linker.Stream.{done}
use lib_system_and_linker.Linker.Mapping.{Mapping, anonymous, from_file}
use lib_system_and_linker.Linker.Elf.{
  load, dynamic, rel_sz, rel, strtab, needed, symtab, range_size, wire_segments, parse_dyns,
  ignored, ElfFile, ElfObject, instantiate_elf,
}
use lib_system_and_linker.Linker.Elf.Relocations.{NoRelocations, StopsAt}
use lib_system_and_linker.Linker.Elf.Range.{AllWithin, instantiate_elf-AllWithin}

-- A file with a text segment, a data segment with a bss, and a dynamic segment in the latter.
abbrev two_segments : ElfFile
two_segments = record {
  has_magic = true;
  headers =
      (record { type = load; vaddr = 0; memsz = 6000; filesz = 6000; offset = 0 })
      ∷ (record { type = load; vaddr = 12288; memsz = 9000; filesz = 300; offset = 8192 })
      ∷ (record { type = dynamic; vaddr = 12388; memsz = 64; filesz = 64; offset = 8292 })
      ∷ [];
  dynamic_at = λ a. strtab 400 ∷ needed 1 ∷ symtab 200 ∷ rel 5000 ∷ rel_sz 0 ∷ [];
  rel_at = λ a. record { type = ignored; sym = 0 };
}

abbrev reserved : ℕ → ℕ
reserved size = 65536

reserved_size : range_size 4096 two_segments.headers ≡ 24576
unfolding range_size
reserved_size = refl

abbrev described : ElfObject
described = record {
  slide = 65536;
  header = 65536;
  rel = 70536;
  rel_size = 0;
  plt_rel = 0;
  plt_rel_size = 0;
  strtab = 65936;
  symtab = 65736;
}

abbrev the_mappings : List Mapping
the_mappings = anonymous 65536 24576 ∷ from_file 65536 6000 0 ∷ from_file 77824 300 8192 ∷ []

two_segments_run : instantiate_elf 4096 reserved two_segments ≡ done (the_mappings, described)
unfolding instantiate_elf
two_segments_run = refl

instantiate_elf-AllWithin_example :
    (NoRelocations described
      × (ms : List Mapping) × (instantiate_elf 4096 reserved two_segments ≡ done (ms, described))
      × AllWithin 65536 (65536 + range_size 4096 two_segments.headers) ms)
    ⊎ ((¬ NoRelocations described) × StopsAt described (instantiate_elf 4096 reserved two_segments))
unfolding wire_segments parse_dyns
instantiate_elf-AllWithin_example =
    instantiate_elf-AllWithin 4096 reserved two_segments 21288 described (omega arith) refl
      ((λ y. (omega arith, omega arith)), ((λ y. (omega arith, omega arith)), ((λ y. cc), tt)))
      (omega arith) (omega (arith, reserved_size)) (omega arith) refl
