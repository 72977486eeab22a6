-- ===== src/Linker/Rebase/Runs.antt =====
-- Runs of the rebase opcodes with constants in place of those of mach-o/loader.h.
use lib_system_and_linker.Prelude.{
  ℕ, ◌/◌, ◌%◌, ◌≤◌, ◌≡◌, ◌⊎◌, refl, ◌==◌, if◌then◌else◌, List, [], ◌∷◌, length, arith,
}
use lib_system_and_linker.Linker.Stream.{done, halts}
use lib_system_and_linker.Linker.Rebase.{
  Memory, store_word, Opcode, finish, set_type_imm, set_segment_and_offset_uleb,
  do_rebase_imm_times, other, Image, State, end_addr, read_rebase,
}
use lib_system_and_linker.Linker.Rebase.Bounds.{rebase_bounds}

abbrev opcode_of : ℕ → Opcode
opcode_of n =
    if n == 0
    then finish
    else (if n == 1
        then set_type_imm
        else (if n == 2
            then set_segment_and_offset_uleb
            else (if n == 5 then do_rebase_imm_times else other)))

-- One segment from 0x1000 on, loaded 0x5000 further up.
abbrev image : Image
image = record {
  decode = λ b. (opcode_of (b / 16), b % 16);
  is_pointer = λ t. t == 1;
  segments = record { vmaddr = 0x1000; vmsize = 0x100 } ∷ [];
  stale = λ i. record { vmaddr = 0; vmsize = 0 };
  slide = 0x5000;
}

abbrev memory : Memory
memory a = if a == 0x6011 then 0x12 else 0

-- Two words from offset 16 on.
abbrev two_words : List ℕ
two_words = 0x11 ∷ 0x20 ∷ 16 ∷ 0x52 ∷ 0 ∷ []

abbrev left_behind : State
left_behind = record {
  type = 1;
  address = 0x6018;
  segment_end_address = 0x6100;
  memory = store_word (store_word memory 0x6010 0x6200) 0x6014 0x5000;
}

reads_two : read_rebase image two_words memory ≡ done left_behind
unfolding read_rebase
reads_two = refl

ends_low : (i : ℕ) → i ≤ length image.segments → end_addr image i ≤ 0x6100
ends_low i h = ground arith

rebase_bounds_example :
    (read_rebase image two_words memory ≡ halts)
    ⊎ ((t : State) × (read_rebase image two_words memory ≡ done t)
        × (t.memory 0x7000 ≡ memory 0x7000))
rebase_bounds_example = rebase_bounds image memory 0x6100 0x7000 ends_low (omega arith) two_words
