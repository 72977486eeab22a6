-- ===== src/Linker/Mapping/Runs.antt =====
-- A small library in a reserved range, for core/lnk_macho.cpp.
use lib_system_and_linker.Prelude.{
  ℕ, ◌+◌, ◌*◌, ◌/◌, ◌≤◌, ◌<◌, ◌≡◌, refl, ◌==◌, if◌then◌else◌, true, false, [], ◌∷◌, arith,
}
use lib_system_and_linker.Linker.Stream.{done}
use lib_system_and_linker.Linker.Rebase.{word_mod}
use lib_system_and_linker.Linker.Commands.{
  SegmentName, SegmentCommand, segment, dysymtab, Commands, read_commands,
}
use lib_system_and_linker.Linker.Commands.Parsed.{all_of, segment_of}
use lib_system_and_linker.Linker.Mapping.{
  Multiple, Paging, anonymous, from_file, MachFile, Instance, instantiate_from_file,
}
use lib_system_and_linker.Linker.Mapping.Loaded.{
  bias_of, Loadable, InMemory, instantiate_from_file-InMemory,
}

abbrev round_up : ℕ → ℕ
round_up x = (x + 4095) / 4096 * 4096

least : (x y : ℕ) → Multiple 4096 y → x ≤ y → y < word_mod → round_up x ≤ y
least x y (k, e) le lt = omega arith

above : (x : ℕ) → x + 4096 ≤ word_mod → x ≤ round_up x
above x h = omega arith

multiple : (x : ℕ) → Multiple 4096 (round_up x)
multiple x = ((x + 4095) / 4096, refl)

abbrev pages : Paging
pages = record {
  page_size = 4096;
  round_page = round_up;
  round_page-Multiple = multiple;
  le-round_page = above;
  round_page-least = least;
}

abbrev text : SegmentCommand
text = record {
  name = SegmentName.text;
  vmaddr = 0;
  vmsize = 0x3000;
  fileoff = 0;
  filesize = 0x1100;
  is_writable = false;
  sections = [];
}

abbrev linkedit : SegmentCommand
linkedit = record {
  name = SegmentName.linkedit;
  vmaddr = 0x3000;
  vmsize = 0x1000;
  fileoff = 0x2000;
  filesize = 0x100;
  is_writable = false;
  sections = [];
}

abbrev commands : Commands
commands a =
    if a == 0
    then (56, segment text)
    else (if a == 56 then (56, segment linkedit) else (80, dysymtab))

abbrev file : MachFile
file = record { has_magic = true; ncmds = 3; commands = commands }

abbrev reserved : ℕ → ℕ
reserved size = 0x40000000

segments : all_of segment_of (read_commands commands 3 0) ≡ text ∷ linkedit ∷ []
unfolding all_of read_commands
segments = refl

loadable : Loadable pages text (linkedit ∷ []) 0x4000 (bias_of reserved text 0x4000)
loadable = record {
  has_page = omega arith;
  has_room = omega arith;
  is_contiguous =
      (refl, (3, refl), (omega arith, refl), (refl, (1, refl), (omega arith, refl), refl));
  at_page = (0x40000, refl);
  fits = omega arith;
  is_moved = λ e. omega arith;
}

instantiate_from_file-InMemory_example :
    (inst : Instance) × (instantiate_from_file pages reserved file ≡ done inst)
    × InMemory pages text (linkedit ∷ []) 0x4000 (bias_of reserved text 0x4000) inst
instantiate_from_file-InMemory_example =
    instantiate_from_file-InMemory pages reserved text (linkedit ∷ []) 0x4000 file refl segments
      loadable

three_mappings :
    instantiate_from_file pages reserved file
    ≡ done (record {
      slide = 0x40000000;
      header = 0x40000000;
      is_split_seg = false;
      table_entry = (0x40000000, 0x3000);
      mappings =
          anonymous 0x40000000 0x4000
          ∷ from_file 0x40000000 0x2000 0
          ∷ from_file 0x40003000 0x1000 0x2000
          ∷ [];
    })
unfolding instantiate_from_file
three_mappings = refl
