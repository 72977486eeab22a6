-- ===== src/Linker/Bootstrap/Runs.antt =====
-- A start of the linker of core/lnk_bootstrap.cpp, from a small image of it.
use lib_system_and_linker.Prelude.{
  ℕ, ◌/◌, ◌%◌, ◌≡◌, refl, ◌==◌, if◌then◌else◌, true, false, none, some, List, [], ◌∷◌, arith,
}
use lib_system_and_linker.Linker.Stream.{done, ◌>>=◌}
use lib_system_and_linker.Linker.Rebase.{
  read_rebase, rebase_compressed, Memory, store_word, load_word, Opcode, finish, set_type_imm,
  set_segment_and_offset_uleb, do_rebase_imm_times, other,
}
use lib_system_and_linker.Linker.Commands.{
  SegmentName, SegmentCommand, Command, segment, dyld_info, new_object, set_classic,
}
use lib_system_and_linker.Linker.Commands.Parsed.{all_of, last_of, dyld_of, Ordered, summary}
use lib_system_and_linker.Linker.Commands.Image.{unparsed}
use lib_system_and_linker.Linker.Classic.{Format, do_rebase}
use lib_system_and_linker.Linker.Bootstrap.{rebase_linker, start}
use lib_system_and_linker.Linker.Bootstrap.Agree.{linkedit_segment, rebase_linker-agrees}

abbrev opcode : ℕ → Opcode
opcode n =
    if n == 0
    then finish
    else (if n == 1
        then set_type_imm
        else (if n == 2
            then set_segment_and_offset_uleb
            else (if n == 5 then do_rebase_imm_times else other)))

abbrev format : Format
format = record {
  decode = λ b. (opcode (b / 16), b % 16);
  is_pointer = λ t. t == 1;
  stale = λ i. record { vmaddr = 0; vmsize = 0 };
}

abbrev text : SegmentCommand
text = record {
  name = SegmentName.text;
  vmaddr = 0x1000;
  vmsize = 0x1000;
  fileoff = 0;
  filesize = 0x1000;
  is_writable = false;
  sections = [];
}

abbrev linkedit : SegmentCommand
linkedit = record text { name = SegmentName.linkedit; vmaddr = 0x2000; fileoff = 0x1000 }

abbrev commands : List (ℕ × Command)
commands = (28, segment text) ∷ ((84, segment linkedit) ∷ ((140, dyld_info true 0x10 5) ∷ []))

-- The opcodes at 0x12010: a pointer at 0x20 behind the start of the first segment.
abbrev memory : Memory
memory a =
    if a == 0x12010
    then 0x11
    else (if a == 0x12011
        then 0x20
        else (if a == 0x12012 then 0x20 else (if a == 0x12013 then 0x51 else 0)))

ordered : Ordered 0x11000 0 0 commands
ordered = (omega arith, λ e. cc, (omega arith, λ e. (refl, omega arith), tt))

has_linkedit : last_of linkedit_segment none commands ≡ some linkedit
unfolding last_of
has_linkedit = refl

has_info : last_of dyld_of none commands ≡ some (0x10, 5)
unfolding last_of
has_info = refl

rebased :
    do_rebase format false []
      (set_classic (summary (unparsed false (new_object 0x11000)) commands))
      memory
    ≡ done (store_word memory 0x12020 0x11000)
unfolding do_rebase read_rebase last_of all_of
rebased = refl

rebase_linker-agrees_example :
    rebase_linker format 0x11000 commands memory ≡ done (store_word memory 0x12020 0x11000)
rebase_linker-agrees_example =
    rebase_linker-agrees format 0x11000 commands linkedit (0x10, 5) has_linkedit has_info false
      false [] memory (store_word memory 0x12020 0x11000) ordered (refl, tt) rebased

-- The executable's header is 0x4000 above where its __TEXT asks to be.
starts :
    (start format 0x5000 commands 0x11000 0x12000 commands memory >>= λ s.
    done (load_word s.memory 0x12020 ∷ (s.exec_slide ∷ [])))
    ≡ done (0x11000 ∷ (0x4000 ∷ []))
unfolding start rebase_compressed last_of store_word
starts = refl
