-- ===== src/Linker/Rebase.antt =====
-- The rebase opcodes: `readRebase` of core/lnk_macho.cpp, for the images that the linker loads, and
-- `rebaseCompressed` of core/lnk_bootstrap.cpp, for the linker itself. Both have the same loop; what
-- they do on bad input differs and is their parameter `OnBad`.
pub mod Ends
pub mod Agree
pub mod Bounds
mod Runs
use lib_system_and_linker.Prelude.{
  ℕ, zero, suc, ◌+◌, ◌-◌, ◌*◌, ◌/◌, ◌%◌, ◌^◌, ◌==◌, ltb, leb, if◌then◌else◌, Bool, true, false,
  Option, none, some, List, [], ◌∷◌, length, get_elem?,
}
use lib_system_and_linker.Linker.Stream.{Result, done, halts, spins, ◌>>=◌, read_uleb128}

-- A byte for each address of the process.
abbrev pub Memory : Type 0
Memory = ℕ → ℕ

abbrev pub word_mod : ℕ
word_mod = 2 ^ 32

abbrev pub load_word : Memory → ℕ → ℕ
load_word m a = m a + m (a + 1) * 2 ^ 8 + m (a + 2) * 2 ^ 16 + m (a + 3) * 2 ^ 24

unfoldable pub store_word : Memory → ℕ → ℕ → Memory
store_word m a v x =
    if x == a
    then v % 2 ^ 8
    else (if x == a + 1
        then v / 2 ^ 8 % 2 ^ 8
        else (if x == a + 2
            then v / 2 ^ 16 % 2 ^ 8
            else (if x == a + 3 then v / 2 ^ 24 % 2 ^ 8 else m x)))

-- What the loop reads of a segment command.
pub record Segment : Type 0 where
  pub vmaddr : ℕ
  pub vmsize : ℕ

-- The opcode of a byte. Its values, and the masks that part a byte into opcode and immediate, are
-- those of mach-o/loader.h, which is not part of the repository.
pub data Opcode : Type 0 where
  finish : Opcode
  set_type_imm : Opcode
  set_segment_and_offset_uleb : Opcode
  add_addr_uleb : Opcode
  add_addr_imm_scaled : Opcode
  do_rebase_imm_times : Opcode
  do_rebase_uleb_times : Opcode
  do_rebase_add_addr_uleb : Opcode
  do_rebase_uleb_times_skipping_uleb : Opcode
  other : Opcode

-- The image. `decode` parts a byte into opcode and immediate, and `is_pointer` tells the types
-- REBASE_TYPE_POINTER and REBASE_TYPE_TEXT_ABSOLUTE32 from others. `stale` is what the array of
-- segment commands leads to behind its last entry, by index.
pub record Image : Type 0 where
  pub decode : ℕ → Opcode × ℕ
  pub is_pointer : ℕ → Bool
  pub segments : List Segment
  pub stale : ℕ → Segment
  pub slide : ℕ

-- The local variables, and the memory.
pub record State : Type 0 where
  pub type : ℕ
  pub address : ℕ
  pub segment_end_address : ℕ
  pub memory : Memory

-- What happens on an address behind the segment, on a segment index above the count, on a type that is
-- no pointer, and on an unknown opcode: `lnk::halt`, or a message.
pub record OnBad : Type 0 where
  pub address : State → Result State
  pub segment : State → Result State
  pub type : State → Result State
  pub opcode : State → Result State

abbrev pub get_segment : Image → ℕ → Segment
get_segment im i = elim (get_elem? im.segments i) [ none ↦ im.stale i | some seg ↦ seg ]

-- `segActualLoadAddr` and `segActualEndAddr`.
abbrev pub load_addr : Image → ℕ → ℕ
load_addr im i = ((get_segment im i).vmaddr + im.slide) % word_mod

abbrev pub end_addr : Image → ℕ → ℕ
end_addr im i = (load_addr im i + (get_segment im i).vmsize) % word_mod

abbrev pub forward : ℕ → State → State
forward n s = record s { address = (s.address + n) % word_mod }

module _ (im : Image) (on_bad : OnBad) where
  -- `rebaseAt`.
  unfoldable pub rebase_at : State → Result State
  unfolding store_word
  rebase_at s =
      if im.is_pointer s.type
      then done (record s {
        memory =
            store_word s.memory s.address ((load_word s.memory s.address + im.slide) % word_mod);
      })
      else on_bad.type s

  -- The test of the address, then `rebaseAt`.
  unfoldable pub rebase_one : State → Result State
  unfolding rebase_at
  rebase_one s =
      if leb s.segment_end_address s.address then on_bad.address s >>= rebase_at else rebase_at s

  -- `count` rounds, with `step` from one address to the next.
  unfoldable pub rebase_times : ℕ → ℕ → State → Result State
  unfolding rebase_one
  rebase_times zero step s = done s
  rebase_times (suc count) step s = rebase_one s >>= λ t. rebase_times count step (forward step t)

  abbrev set_segment : ℕ → ℕ → State → State
  set_segment i offset s = record s {
    address = (load_addr im i + offset) % word_mod;
    segment_end_address = end_addr im i;
  }

  abbrev check_segment : ℕ → State → Result State
  check_segment i s = if ltb (length im.segments) i then on_bad.segment s else done s

  -- One opcode, behind its byte: the stream that is left, `none` for REBASE_OPCODE_DONE.
  unfoldable pub run_opcode : Opcode → ℕ → List ℕ → State → Result (Option (List ℕ) × State)
  unfolding rebase_times read_uleb128
  run_opcode finish imm p s = done (none, s)
  run_opcode set_type_imm imm p s = done (some p, record s { type = imm })
  run_opcode set_segment_and_offset_uleb imm p s = do
    s' ← check_segment imm s
    (offset, p') ← read_uleb128 p
    done (some p', set_segment imm offset s')
  run_opcode add_addr_uleb imm p s = do (n, p') ← read_uleb128 p; done (some p', forward n s)
  run_opcode add_addr_imm_scaled imm p s = done (some p, forward (imm * 4) s)
  run_opcode do_rebase_imm_times imm p s = do s' ← rebase_times imm 4 s; done (some p, s')
  run_opcode do_rebase_uleb_times imm p s = do
    (count, p') ← read_uleb128 p
    s' ← rebase_times count 4 s
    done (some p', s')
  run_opcode do_rebase_add_addr_uleb imm p s = do
    s' ← rebase_one s
    (n, p') ← read_uleb128 p
    done (some p', forward (n + 4) s')
  run_opcode do_rebase_uleb_times_skipping_uleb imm p s = do
    (count, p') ← read_uleb128 p
    (skip, p'') ← read_uleb128 p'
    s' ← rebase_times count (skip + 4) s
    done (some p'', s')
  run_opcode other imm p s = do s' ← on_bad.opcode s; done (some p, s')

  -- The `while` loop, with a number of rounds.
  unfoldable pub rebase_loop : ℕ → List ℕ → State → Result State
  unfolding run_opcode
  rebase_loop zero p s = spins
  rebase_loop (suc rounds) [] s = done s
  rebase_loop (suc rounds) (b ∷ p) s = run_opcode (im.decode b).0 (im.decode b).1 p s >>= λ r.
      elim r.0 [ none ↦ done r.1 | some p' ↦ rebase_loop rounds p' r.1 ]

  -- From the first lines on. A byte is a round at most.
  unfoldable pub run_rebase : List ℕ → Memory → Result State
  unfolding rebase_loop
  run_rebase stream m = rebase_loop (suc (length stream)) stream (record {
    type = 0;
    address = load_addr im 0;
    segment_end_address = end_addr im 0;
    memory = m;
  })

abbrev pub halting : OnBad
halting = record {
  address = λ s. halts;
  segment = λ s. halts;
  type = λ s. halts;
  opcode = λ s. halts;
}

-- `printText` and `_printAbrt` return.
abbrev pub printing : OnBad
printing = record { address = done; segment = done; type = done; opcode = done }

unfoldable pub read_rebase : Image → List ℕ → Memory → Result State
unfolding run_rebase
read_rebase im = run_rebase im halting

unfoldable pub rebase_compressed : Image → List ℕ → Memory → Result State
unfolding run_rebase
rebase_compressed im = run_rebase im printing
