-- ===== src/Linker/Bind.antt =====
-- The binding opcodes of an image: `readBind`, `readLazyBind` and `readWeakBind` of
-- core/lnk_macho.cpp.
pub mod Table
mod Steps
pub mod Decode
pub mod Chain
pub mod Apply
mod Runs
use lib_system_and_linker.Prelude.{
  ℕ, zero, suc, ◌+◌, ◌-◌, ◌*◌, ◌/◌, ◌%◌, ◌^◌, ltb, leb, ◌==◌, if◌then◌else◌, Bool, true, false,
  Option, none, some, List, [], ◌∷◌, length, bit_or,
}
use lib_system_and_linker.Linker.Stream.{
  read_sleb128, Result, done, halts, spins, strays, ◌>>=◌, read_uleb128,
}
use lib_system_and_linker.Linker.Rebase
use lib_system_and_linker.Linker.Rebase.{load_addr, end_addr, word_mod}

-- The opcode of a byte, by the values of mach-o/loader.h.
pub data Opcode : Type 0 where
  finish : Opcode
  set_dylib_ordinal_imm : Opcode
  set_dylib_ordinal_uleb : Opcode
  set_dylib_special_imm : Opcode
  set_symbol_trailing_flags_imm : Opcode
  set_type_imm : Opcode
  set_addend_sleb : Opcode
  set_segment_and_offset_uleb : Opcode
  add_addr_uleb : Opcode
  do_bind : Opcode
  do_bind_add_addr_uleb : Opcode
  do_bind_add_addr_imm_scaled : Opcode
  do_bind_uleb_times_skipping_uleb : Opcode
  other : Opcode

-- `rebase` has the segments and the slide. `decode` parts a byte into opcode and immediate,
-- `opcode_mask` is BIND_OPCODE_MASK and `pointer` is BIND_TYPE_POINTER.
pub record Image : Type 0 where
  pub rebase : Rebase.Image
  pub decode : ℕ → Opcode × ℕ
  pub opcode_mask : ℕ
  pub pointer : ℕ

-- The arguments of `bind`. The name is `none` for NULL; an int stands for itself modulo 2^32.
pub record Request : Type 0 where
  pub address : ℕ
  pub type : ℕ
  pub name : Option (List ℕ)
  pub flags : ℕ
  pub addend : ℕ
  pub ordinal : ℕ

-- The local variables: the arguments of the next `bind`, and the end of the segment.
pub record Locals : Type 0 where
  pub request : Request
  pub segment_end_address : ℕ

-- Where the three functions differ: whether BIND_OPCODE_DONE ends the loop, whether the special
-- ordinals and the opcodes that do more than one `bind` are known, and the first type.
pub record Mode : Type 0 where
  pub stops : Bool
  pub has_special : Bool
  pub has_more : Bool
  pub first_type : ℕ

-- The name at `pos`, and the bytes behind its '\0'.
unfoldable pub read_name : List ℕ → Result (List ℕ × List ℕ)
read_name [] = strays
read_name (c ∷ p) = elim (c == 0) [
  | true ↦ done ([], p)
  | false ↦ read_name p >>= λ r. done (c ∷ r.0, r.1)
]

abbrev pub forward : ℕ → Locals → Locals
forward n s = record s {
  request = record s.request { address = (s.request.address + n) % word_mod };
}

-- `signExtended` of BIND_OPCODE_SET_DYLIB_SPECIAL_IMM, an int8_t that becomes an int.
abbrev pub special_ordinal : ℕ → ℕ → ℕ
special_ordinal mask imm =
    if imm == 0
    then 0
    else (let byte : ℕ = bit_or mask imm % 2 ^ 8 in
        if leb 128 byte then byte + 2 ^ 32 - 2 ^ 8 else byte)

-- `bind` is a parameter of the three functions, in a world that it changes.
module _ {W : Type 0} (bind : Request → W → Result W) (im : Image) (mode : Mode) where
  -- The test of the address, then `bind`.
  unfoldable pub bind_one : Locals → W → Result W
  bind_one s w = if leb s.segment_end_address s.request.address then halts else bind s.request w

  -- `count` rounds, with `step` from one address to the next.
  unfoldable pub bind_times : ℕ → ℕ → Locals → W → Result (Locals × W)
  unfolding bind_one
  bind_times zero step s w = done (s, w)
  bind_times (suc count) step s w = bind_one s w >>= λ v. bind_times count step (forward step s) v

  -- One opcode, behind its byte: the stream that is left, `none` at the end of the loop.
  unfoldable pub run_opcode :
      Opcode → ℕ → List ℕ → Locals → W → Result (Option (List ℕ) × Locals × W)
  unfolding bind_times read_name read_sleb128 read_uleb128
  run_opcode finish imm p s w = done (if mode.stops then none else some p, s, w)
  run_opcode set_dylib_ordinal_imm imm p s w =
      done (some p, record s { request = record s.request { ordinal = imm } }, w)
  run_opcode set_dylib_ordinal_uleb imm p s w = do
    (n, p') ← read_uleb128 p
    done (some p', record s { request = record s.request { ordinal = n } }, w)
  run_opcode set_dylib_special_imm imm p s w =
      if mode.has_special
      then done (
        some p,
        record s { request = record s.request { ordinal = special_ordinal im.opcode_mask imm } },
        w,
      )
      else halts
  run_opcode set_symbol_trailing_flags_imm imm p s w = do
    (name, p') ← read_name p
    done (some p', record s { request = record s.request { name = some name; flags = imm } }, w)
  run_opcode set_type_imm imm p s w =
      done (some p, record s { request = record s.request { type = imm } }, w)
  run_opcode set_addend_sleb imm p s w = do
    (n, p') ← read_sleb128 p
    done (some p', record s { request = record s.request { addend = n } }, w)
  run_opcode set_segment_and_offset_uleb imm p s w = do
    (n, p') ← read_uleb128 p
    done (
      some p',
      record {
        request = record s.request { address = (load_addr im.rebase imm + n) % word_mod };
        segment_end_address = end_addr im.rebase imm;
      },
      w,
    )
  run_opcode add_addr_uleb imm p s w = do (n, p') ← read_uleb128 p; done (some p', forward n s, w)
  run_opcode do_bind imm p s w = do w' ← bind_one s w; done (some p, forward 4 s, w')
  run_opcode do_bind_add_addr_uleb imm p s w = elim mode.has_more [
    | false ↦ halts
    | true ↦ do w' ← bind_one s w; (n, p') ← read_uleb128 p; done (some p', forward (n + 4) s, w')
  ]
  run_opcode do_bind_add_addr_imm_scaled imm p s w = elim mode.has_more [
    | false ↦ halts
    | true ↦ do w' ← bind_one s w; done (some p, forward (imm * 4 + 4) s, w')
  ]
  run_opcode do_bind_uleb_times_skipping_uleb imm p s w = elim mode.has_more [
    | false ↦ halts
    | true ↦ do
      (count, p') ← read_uleb128 p
      (skip, p'') ← read_uleb128 p'
      (s', w') ← bind_times count (skip + 4) s w
      done (some p'', s', w')
  ]
  run_opcode other imm p s w = halts

  -- The `while` loop, with a number of rounds.
  unfoldable pub bind_loop : ℕ → List ℕ → Locals → W → Result W
  unfolding run_opcode
  bind_loop zero p s w = spins
  bind_loop (suc rounds) [] s w = done w
  bind_loop (suc rounds) (b ∷ p) s w = run_opcode (im.decode b).0 (im.decode b).1 p s w >>= λ r.
      elim r.0 [ none ↦ done r.2 | some p' ↦ bind_loop rounds p' r.1 r.2 ]

  abbrev pub first_locals : Locals
  first_locals = record {
    request = record {
      address = 0;
      type = mode.first_type;
      name = none;
      flags = 0;
      addend = 0;
      ordinal = 0;
    };
    segment_end_address = 0;
  }

  -- From the first lines on. A byte is a round at most.
  unfoldable pub run_bind : List ℕ → W → Result W
  unfolding bind_loop
  run_bind stream w = bind_loop (suc (length stream)) stream first_locals w

abbrev pub non_lazy : Mode
non_lazy = record { stops = true; has_special = true; has_more = true; first_type = 0 }

abbrev pub weak : Mode
weak = record { stops = false; has_special = false; has_more = true; first_type = 0 }

-- The first type is BIND_TYPE_POINTER.
abbrev pub lazy : Image → Mode
lazy im = record { stops = false; has_special = true; has_more = false; first_type = im.pointer }

module _ {W : Type 0} (bind : Request → W → Result W) (im : Image) where
  unfoldable pub read_bind : List ℕ → W → Result W
  unfolding run_bind
  read_bind = run_bind bind im non_lazy

  unfoldable pub read_lazy_bind : List ℕ → W → Result W
  unfolding run_bind
  read_lazy_bind = run_bind bind im (lazy im)

  -- Its calls of `bind` are commented out.
  unfoldable pub read_weak_bind : List ℕ → W → Result W
  unfolding run_bind
  read_weak_bind = run_bind (λ r w. done w) im weak

  -- The calls that `doBindSymbols` ends with, on the three streams of the image.
  unfoldable pub do_bind_symbols : List ℕ → List ℕ → List ℕ → W → Result W
  unfolding read_bind read_weak_bind read_lazy_bind
  do_bind_symbols bound weakly lazily w =
      read_bind bound w >>= λ w'. read_weak_bind weakly w' >>= λ w''. read_lazy_bind lazily w''
