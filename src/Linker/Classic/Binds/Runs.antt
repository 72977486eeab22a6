-- ===== src/Linker/Classic/Binds/Runs.antt =====
-- Two symbol pointers of an image without LC_DYLD_INFO, for core/lnk_macho.cpp.
use lib_system_and_linker.Prelude.{ℕ, ◌==◌, if◌then◌else◌, true, false, List, [], ◌∷◌}
use lib_system_and_linker.Linker.Lookup.{equal}
use lib_system_and_linker.Linker.Resolve.{ClassicObject, classic}
use lib_system_and_linker.Linker.Bind.Apply.{pointer, Linker, World}
use lib_system_and_linker.Linker.Commands.{
  SectionName, lazy_symbol_pointers, Section, SegmentName, SegmentCommand, Command, segment,
  dysymtab,
}
use lib_system_and_linker.Linker.Classic.Binds.{is_local, symbol, Tables}

-- It has one symbol, at 0x700.
abbrev library : ClassicObject
library = record {
  compare_key = λ name k. equal;
  tocoff = false;
  toc = λ k. k;
  ntoc = 0;
  iextdefsym = 0;
  nextdefsym = 1;
  n_value = λ k. 0x700;
  is_thumb = λ k. false;
  slide = 0x5000;
}

abbrev linker : Linker
linker = record {
  images = record { object = λ k. classic library; re_exports = λ k. [] };
  depth = 1;
  chain = 4 ∷ [];
  type_of = λ t. pointer;
  dep_count = 2;
}

abbrev tables : Tables
tables = record {
  indirect = λ k. (if k == 7 then is_local else symbol 3);
  symtab = λ k. record {
    name = b'f' ∷ [];
    ordinal = 1;
    n_value = 0;
    is_sect = false;
    is_thumb_def = false;
  };
  externs = [];
  pointer = 1;
}

abbrev lazy_pointers : Section
lazy_pointers = record {
  name = SectionName.other;
  addr = 0x100;
  size = 8;
  type = lazy_symbol_pointers;
  reserved1 = 6;
}

abbrev text : SegmentCommand
text = record {
  name = SegmentName.text;
  vmaddr = 0;
  vmsize = 0x1000;
  fileoff = 0;
  filesize = 0x1000;
  is_writable = true;
  sections = lazy_pointers ∷ [];
}

abbrev commands : List (ℕ × Command)
commands = (28, dysymtab) ∷ ((108, segment text) ∷ [])

abbrev world : World
world = record { memory = λ a. 0; unresolved_count = 0 }
