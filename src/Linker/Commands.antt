-- ===== src/Linker/Commands.antt =====
-- The load commands of a Mach-O image: `parseLoadCommands` and `processSections` of core/lnk_macho.cpp.
pub mod Parsed
pub mod Image
pub mod Initializers
mod Runs
use lib_system_and_linker.Prelude.{
  ℕ, zero, suc, ◌+◌, ◌-◌, ◌*◌, ◌/◌, ◌%◌, ◌^◌, ◌==◌, leb, if◌then◌else◌, Bool, true, false, not,
  Option, none, some, List, [], ◌∷◌, ◌++◌, length,
}
use lib_system_and_linker.Linker.Stream.{Result, done, halts, strays, ◌>>=◌}
use lib_system_and_linker.Linker.Rebase.{Memory, load_word, store_word, word_mod}
use lib_system_and_linker.Linker.Load.{Loader, Loading, load_dylibs}

-- The names that the code compares a section's name with.
pub data SectionName : Type 0 where
  program_vars : SectionName
  bridge : SectionName
  other : SectionName

-- The SECTION_TYPE of the flags: S_MOD_INIT_FUNC_POINTERS, S_NON_LAZY_SYMBOL_POINTERS,
-- S_LAZY_SYMBOL_POINTERS, or another.
pub data SectionType : Type 0 where
  mod_init_func_pointers : SectionType
  non_lazy_symbol_pointers : SectionType
  lazy_symbol_pointers : SectionType
  other : SectionType

pub record Section : Type 0 where
  pub name : SectionName
  pub addr : ℕ
  pub size : ℕ
  pub type : SectionType
  pub reserved1 : ℕ

-- The names that the code compares a segment's name with.
pub data SegmentName : Type 0 where
  text : SegmentName
  linkedit : SegmentName
  other : SegmentName

pub record SegmentCommand : Type 0 where
  pub name : SegmentName
  pub vmaddr : ℕ
  pub vmsize : ℕ
  pub fileoff : ℕ
  pub filesize : ℕ
  pub is_writable : Bool
  pub sections : List Section

-- A load command behind its `cmdsize`. The argument of `unix_thread` is `state.r15`, that of `routines`
-- `init_address`; those of `dylib` are the path, as in Load, and whether it is LC_REEXPORT_DYLIB; those
-- of `symtab` are `stroff` and `symoff`; those of `dyld_info` are whether it is LC_DYLD_INFO_ONLY,
-- `rebase_off` and `rebase_size`.
pub data Command : Type 0 where
  segment : SegmentCommand → Command
  unix_thread : ℕ → Command
  routines : ℕ → Command
  dylib : ℕ → Bool → Command
  symtab : ℕ → ℕ → Command
  dysymtab : Command
  dyld_info : Bool → ℕ → ℕ → Command
  other : Command

-- What the memory holds at an address, read as a load command: its `cmdsize` and the rest.
abbrev pub Commands : Type 0
Commands = ℕ → ℕ × Command

-- The `ncmds` commands from an address on, each with its address. The loops over the commands write to
-- none of them.
unfoldable pub read_commands : Commands → ℕ → ℕ → List (ℕ × Command)
read_commands memory zero a = []
read_commands memory (suc ncmds) a =
    (a, (memory a).1) ∷ read_commands memory ncmds ((a + (memory a).0) % word_mod)

-- The members of a MachObject that its commands set; 0 is NULL. `dynamic_info` is the address of the
-- command, `init_routine` is `fRoutines->init_address`, and `dyld_info` has the members `rebase_off` and
-- `rebase_size` of `fDyldInfo`.
pub record MachObject : Type 0 where
  pub slide : ℕ
  pub segments : List SegmentCommand
  pub linkedit_base : ℕ
  pub entry_point : ℕ
  pub init_routine : Option ℕ
  pub dynamic_info : ℕ
  pub dyld_info : Option (ℕ × ℕ)
  pub is_classic : Bool
  pub strings : ℕ
  pub symbol_table : ℕ
  pub has_initialized : Bool

-- A new object, with `fSlide`: `instantiateFromMemory` sets nothing else that stands here.
abbrev pub new_object : ℕ → MachObject
new_object slide = record {
  slide = slide;
  segments = [];
  linkedit_base = 0;
  entry_point = 0;
  init_routine = none;
  dynamic_info = 0;
  dyld_info = none;
  is_classic = false;
  strings = 0;
  symbol_table = 0;
  has_initialized = false;
}

-- The object with the local variables of `parseLoadCommands`.
pub record Parsing : Type 0 where
  pub object : MachObject
  pub compressed : Bool
  pub symbol_table_strings : ℕ
  pub symbol_table : ℕ

-- `segActualLoadAddr` and `segFileOffset` of the segment: where the file's first byte would be.
abbrev pub file_base : ℕ → SegmentCommand → ℕ
file_base slide seg = ((seg.vmaddr + slide) % word_mod + word_mod - seg.fileoff) % word_mod

abbrev pub is_linkedit : SegmentName → Bool
is_linkedit text = false
is_linkedit linkedit = true
is_linkedit other = false

abbrev pub add_segment : SegmentCommand → MachObject → MachObject
add_segment seg o = record o {
  segments = o.segments ++ (seg ∷ []);
  linkedit_base = if is_linkedit seg.name then file_base o.slide seg else o.linkedit_base;
}

abbrev pub World : Type 0
World = Parsing × Loader

-- `load` is `loadLibrary`, and `im` the image whose commands these are.
module _ (load : ℕ → Loader → Result (Loading × Loader)) (im : ℕ) where
  -- The `switch`. The table of segments has 64 places. LC_SYMTAB falls through to LC_DYSYMTAB.
  unfoldable pub parse_command : ℕ → Command → World → Result World
  parse_command a (segment seg) (p, s) =
      if leb 64 (length p.object.segments)
      then strays
      else done (record p { object = add_segment seg p.object }, s)
  parse_command a (unix_thread pc) (p, s) =
      done (
        record p { object = record p.object { entry_point = (p.object.slide + pc) % word_mod } },
        s,
      )
  parse_command a (routines init) (p, s) =
      done (record p { object = record p.object { init_routine = some init } }, s)
  parse_command a (dylib path re_exported) (p, s) =
      load_dylibs load im ((path, re_exported) ∷ []) s >>= λ t. done (p, t)
  parse_command a (symtab stroff symoff) (p, s) =
      if p.object.linkedit_base == 0
      then halts
      else done (
        record p {
          object = record p.object { dynamic_info = a };
          symbol_table_strings = (p.object.linkedit_base + stroff) % word_mod;
          symbol_table = (p.object.linkedit_base + symoff) % word_mod;
        },
        s,
      )
  parse_command a dysymtab (p, s) =
      done (record p { object = record p.object { dynamic_info = a } }, s)
  parse_command a (dyld_info only off size) (p, s) =
      done (
        record p { object = record p.object { dyld_info = some (off, size) }; compressed = true },
        s,
      )
  parse_command a other (p, s) = done (p, s)

  -- The `while` loop.
  unfoldable pub parse_commands : List (ℕ × Command) → World → Result World
  unfolding parse_command
  parse_commands [] w = done w
  parse_commands ((a, c) ∷ cs) w = parse_command a c w >>= parse_commands cs

-- Behind the loop: the members of an image that is not compressed.
abbrev pub set_classic : Parsing → MachObject
set_classic p = if p.compressed then p.object else record p.object {
  is_classic = true;
  strings = p.symbol_table_strings;
  symbol_table = p.symbol_table;
}

-- `(*pv->environPtr) = gEnvironPtr`: `environPtr` is the fourth word of the ProgramVars.
unfoldable pub process_section : ℕ → ℕ → Section → Memory → Memory
process_section environ slide sect m = elim sect.name [
  | program_vars ↦ store_word m (load_word m ((sect.addr + slide + 12) % word_mod)) environ
  | bridge ↦ m
  | other ↦ m
]

unfoldable pub process_sections : ℕ → ℕ → List Section → Memory → Memory
unfolding process_section
process_sections environ slide [] m = m
process_sections environ slide (sect ∷ sects) m =
    process_sections environ slide sects (process_section environ slide sect m)

unfoldable pub process_segments : ℕ → ℕ → List SegmentCommand → Memory → Memory
unfolding process_sections
process_segments environ slide [] m = m
process_segments environ slide (seg ∷ segs) m =
    process_segments environ slide segs (process_sections environ slide seg.sections m)

-- `parseLoadCommands`. `compressed` has no value at first: `garbage` is what it holds. `ncmds` is the
-- header's, and the commands stand from `first` on, behind the header. `environ` is `gEnvironPtr`; the
-- sections are processed in the memory that the loaded libraries leave, which is a parameter.
unfoldable pub parse_load_commands :
    (ℕ → Loader → Result (Loading × Loader))
    → ℕ
    → Commands
    → ℕ
    → ℕ
    → Bool
    → ℕ
    → (Loader → Memory)
    → MachObject
    → Loader
    → Result (MachObject × Memory × Loader)
unfolding read_commands parse_commands process_segments
parse_load_commands load im memory ncmds first garbage environ after o s = elim (ncmds == 0) [
  | true ↦ halts
  | false ↦
      parse_commands load im (read_commands memory ncmds first)
        (record { object = o; compressed = garbage; symbol_table_strings = 0; symbol_table = 0 }, s)
      >>= λ (p, t).
          let o' = set_classic p in
          done (o', process_segments environ o'.slide o'.segments (after t), t)
]
