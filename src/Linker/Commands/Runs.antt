-- ===== src/Linker/Commands/Runs.antt =====
-- The load commands of a small library for core/lnk_macho.cpp.
use lib_system_and_linker.Prelude.{
  ℕ, ◌+◌, ◌≡◌, refl, ◌==◌, if◌then◌else◌, true, false, some, [], ◌∷◌, ◌++◌, arith,
}
use lib_system_and_linker.Linker.Stream.{Result, done, halts, ◌>>=◌}
use lib_system_and_linker.Linker.Rebase.{Memory, store_word}
use lib_system_and_linker.Linker.Load.{Loader, Loading, load_dylibs}
use lib_system_and_linker.Linker.Commands.{
  SectionType, mod_init_func_pointers, SectionName, Section, SegmentName, SegmentCommand, Commands,
  segment, routines, dylib, symtab, dysymtab, MachObject, new_object, read_commands, parse_commands,
  process_segments, parse_load_commands,
}
use lib_system_and_linker.Linker.Commands.Parsed.{
  last_of, all_of, segment_of, dylib_of, linkedit_of, Ordered, summary,
}
use lib_system_and_linker.Linker.Commands.Image.{
  members, unparsed, parse_load_commands-eq, symtab_without_linkedit,
}
use lib_system_and_linker.Linker.Commands.Initializers.{
  call_routine, do_initialize, slots, call_slots, do_initialize_once,
}

abbrev inits : Section
inits = record {
  name = SectionName.other;
  addr = 0x1800;
  size = 8;
  type = mod_init_func_pointers;
  reserved1 = 0;
}

abbrev vars : Section
vars = record {
  name = SectionName.program_vars;
  addr = 0x1810;
  size = 20;
  type = SectionType.other;
  reserved1 = 0;
}

abbrev text : SegmentCommand
text = record {
  name = SegmentName.text;
  vmaddr = 0x1000;
  vmsize = 0x1000;
  fileoff = 0;
  filesize = 0x1000;
  is_writable = false;
  sections = inits ∷ vars ∷ [];
}

abbrev linkedit : SegmentCommand
linkedit = record {
  name = SegmentName.linkedit;
  vmaddr = 0x2000;
  vmsize = 0x1000;
  fileoff = 0x1000;
  filesize = 0x100;
  is_writable = false;
  sections = [];
}

abbrev memory : Commands
memory a =
    if a == 0x101C
    then (192, segment text)
    else (if a == 0x10DC
        then (56, segment linkedit)
        else (if a == 0x1114
            then (24, symtab 64 16)
            else (if a == 0x112C
                then (80, dysymtab)
                else (if a == 0x117C then (24, dylib 11 true) else (44, routines 0x1700)))))

abbrev loader : Loader
loader = record { chain = []; image_count = 1; next_object = 1; dependencies = []; rebased = [] }

abbrev load : ℕ → Loader → Result (Loading × Loader)
load path s = done (record { library = some (path + 100); already_loaded = some false }, s)

-- The word at 0x1181C is 0x3000, the place of `environPtr`.
abbrev after : Loader → Memory
after s a = if a == 0x1181D then 0x30 else 0

ordered : Ordered 0x10000 0 0 (read_commands memory 6 0x101C)
unfolding read_commands
ordered = (omega arith, λ e. cc, (omega arith, λ e. (refl, omega arith), (omega arith, tt)))

parse_load_commands-eq_example :
    parse_load_commands load 7 memory 6 0x101C false 0x5000 after (new_object 0x10000) loader ≡ (
      load_dylibs load 7 (all_of dylib_of (read_commands memory 6 0x101C)) loader >>= λ t. done (
        members (summary (unparsed false (new_object 0x10000)) (read_commands memory 6 0x101C)),
        process_segments 0x5000 0x10000
            ([] ++ all_of segment_of (read_commands memory 6 0x101C))
            (after t),
        t,
      ))
parse_load_commands-eq_example =
    parse_load_commands-eq load 7 memory 6 0x101C 0x5000 false after (new_object 0x10000) loader
      (omega arith) ordered

-- The members of the object, whose image has no LC_DYLD_INFO.
classic_members :
    (parse_load_commands load 7 memory 6 0x101C false 0x5000 after (new_object 0x10000) loader
      >>= λ r. done (r.0.strings ∷ (r.0.symbol_table ∷ (r.0.dynamic_info ∷ (r.1 0x3001 ∷ [])))))
    ≡ done (0x11040 ∷ (0x11010 ∷ (0x112C ∷ (0x50 ∷ []))))
unfolding parse_load_commands load_dylibs store_word
classic_members = refl

text_first : Ordered 0x10000 0 0 ((0x101C, segment text) ∷ [])
text_first = (omega arith, λ e. cc, tt)

no_linkedit : last_of (linkedit_of 0x10000) 0 ((0x101C, segment text) ∷ []) ≡ 0
unfolding last_of
no_linkedit = refl

symtab_without_linkedit_example :
    parse_commands load 7
      (((0x101C, segment text) ∷ []) ++ ((0x10DC, symtab 64 16) ∷ []))
      (unparsed true (new_object 0x10000), loader)
    ≡ (load_dylibs load 7 (all_of dylib_of ((0x101C, segment text) ∷ [])) loader >>= λ t. halts)
symtab_without_linkedit_example =
    symtab_without_linkedit load 7 ((0x101C, segment text) ∷ []) [] 0x10DC 64 16
      (unparsed true (new_object 0x10000)) loader text_first no_linkedit

-- An initializer that counts its calls at address 0.
abbrev count_calls : ℕ → Memory → Result Memory
count_calls f m = done (λ a. if a == 0 then m 0 + 1 else m a)

abbrev ready : MachObject
ready = record (new_object 0x10000) { segments = text ∷ linkedit ∷ []; init_routine = some 0x1700 }

do_initialize_once_example :
    (do_initialize count_calls ready (λ a. 0) ≡ (
      call_routine count_calls 0x10000 (some 0x1700) (λ a. 0)
      >>= call_slots count_calls (slots 0x10000 (text ∷ linkedit ∷ []))
      >>= λ m'. done (record ready { has_initialized = true }, m')))
    × ((o' : MachObject) (m' m'' : Memory)
        → do_initialize count_calls ready (λ a. 0) ≡ done (o', m')
        → do_initialize count_calls o' m'' ≡ done (o', m''))
do_initialize_once_example = do_initialize_once count_calls ready (λ a. 0) refl

calls_three : (do_initialize count_calls ready (λ a. 0) >>= λ r. done (r.1 0)) ≡ done 3
unfolding do_initialize
calls_three = refl
