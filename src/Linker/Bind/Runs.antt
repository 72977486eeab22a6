-- ===== src/Linker/Bind/Runs.antt =====
-- Bindings with constants in place of those of mach-o/loader.h.
use lib_system_and_linker.Prelude.{
  zero, suc, ℕ, ◌+◌, ◌*◌, ◌/◌, ◌%◌, ◌<◌, ◌≤◌, ◌≡◌, ◌⊎◌, refl, ◌==◌, if◌then◌else◌, some, List, [],
  ◌∷◌, arith,
}
use lib_system_and_linker.Linker.Stream.{done}
use lib_system_and_linker.Linker.Rebase
use lib_system_and_linker.Linker.Rebase.{Segment, load_word}
use lib_system_and_linker.Linker.Resolve.{resolve}
use lib_system_and_linker.Linker.Resolve.Runs.{images}
use lib_system_and_linker.Linker.Bind.{
  suc, Opcode, finish, set_dylib_ordinal_imm, set_dylib_ordinal_uleb, set_dylib_special_imm,
  set_symbol_trailing_flags_imm, set_type_imm, set_addend_sleb, set_segment_and_offset_uleb,
  add_addr_uleb, do_bind, do_bind_add_addr_uleb, do_bind_add_addr_imm_scaled,
  do_bind_uleb_times_skipping_uleb, other, Image,
}
use lib_system_and_linker.Linker.Bind.Table.{AllFit, Entry}
use lib_system_and_linker.Linker.Bind.Chain.{Tables, bind_chain, encoded, bind_tables, chain_bound}
use lib_system_and_linker.Linker.Bind.Apply.{
  pointer, text_absolute32, text_pcrel32, bad, Linker, World, bind,
}
use lib_system_and_linker.Linker.Bind.Apply.Stores.{bind_stores}

abbrev code : Opcode → ℕ
code finish = 0
code set_dylib_ordinal_imm = 1
code set_dylib_ordinal_uleb = 2
code set_dylib_special_imm = 3
code set_symbol_trailing_flags_imm = 4
code set_type_imm = 5
code set_addend_sleb = 6
code set_segment_and_offset_uleb = 7
code add_addr_uleb = 8
code do_bind = 9
code do_bind_add_addr_uleb = 10
code do_bind_add_addr_imm_scaled = 11
code do_bind_uleb_times_skipping_uleb = 12
code other = 13

abbrev opcodes : List Opcode
opcodes =
    finish ∷ set_dylib_ordinal_imm ∷ set_dylib_ordinal_uleb ∷ set_dylib_special_imm
    ∷ set_symbol_trailing_flags_imm ∷ set_type_imm ∷ set_addend_sleb ∷ set_segment_and_offset_uleb
    ∷ add_addr_uleb ∷ do_bind ∷ do_bind_add_addr_uleb ∷ do_bind_add_addr_imm_scaled
    ∷ do_bind_uleb_times_skipping_uleb ∷ []

abbrev opcode_at : List Opcode → ℕ → Opcode
opcode_at [] n = other
opcode_at (op ∷ ops) zero = op
opcode_at (op ∷ ops) (suc n) = opcode_at ops n

opcode-code : (op : Opcode) → opcode_at opcodes (code op) ≡ op
opcode-code finish = refl
opcode-code set_dylib_ordinal_imm = refl
opcode-code set_dylib_ordinal_uleb = refl
opcode-code set_dylib_special_imm = refl
opcode-code set_symbol_trailing_flags_imm = refl
opcode-code set_type_imm = refl
opcode-code set_addend_sleb = refl
opcode-code set_segment_and_offset_uleb = refl
opcode-code add_addr_uleb = refl
opcode-code do_bind = refl
opcode-code do_bind_add_addr_uleb = refl
opcode-code do_bind_add_addr_imm_scaled = refl
opcode-code do_bind_uleb_times_skipping_uleb = refl
opcode-code other = refl

-- One segment from 0x1000 on, loaded 0x5000 further up.
abbrev image : Image
image = record {
  rebase = record {
    decode = λ b. (Rebase.other, b);
    is_pointer = λ t. t == 1;
    segments = record { vmaddr = 0x1000; vmsize = 0x100 } ∷ [];
    stale = λ i. record { vmaddr = 0; vmsize = 0 };
    slide = 0x5000;
  };
  decode = λ b. (opcode_at opcodes (b / 16), b % 16);
  opcode_mask = 0xf0;
  pointer = 1;
}

abbrev byte_of : Opcode → ℕ → ℕ
byte_of op imm = code op * 16 + imm

reads : (op : Opcode) (imm : ℕ) → imm < 16 → image.decode (byte_of op imm) ≡ (op, imm)
reads op imm h =
    let high : (code op * 16 + imm) / 16 ≡ code op = omega (arith, h) in
    let low : (code op * 16 + imm) % 16 ≡ imm = omega (arith, h) in
    rw (high, low, opcode-code op) refl

-- The symbol b, and one that no image has.
abbrev table : List Entry
table =
    record { ordinal = 1; type = 1; name = 98 ∷ []; flags = 0; segment = 0; offset = 16 }
    ∷ record { ordinal = 1; type = 3; name = 120 ∷ []; flags = 0; segment = 0; offset = 200 }
    ∷ []

abbrev weak_table : List Entry
weak_table =
    record { ordinal = 0; type = 1; name = 97 ∷ []; flags = 0; segment = 0; offset = 20 } ∷ []

table-fits : AllFit image table
table-fits = (
  (
    omega arith,
    omega arith,
    (λ h. omega arith, tt),
    omega arith,
    omega arith,
    omega arith,
    omega arith,
  ),
  (
    (
      omega arith,
      omega arith,
      (λ h. omega arith, tt),
      omega arith,
      omega arith,
      omega arith,
      omega arith,
    ),
    tt,
  ),
)

weak_table-fits : AllFit image weak_table
weak_table-fits = (
  (
    omega arith,
    omega arith,
    (λ h. omega arith, tt),
    omega arith,
    omega arith,
    omega arith,
    omega arith,
  ),
  tt,
)

abbrev linker : Linker
linker = record {
  images = images;
  depth = 2;
  chain = 2 ∷ 0 ∷ [];
  type_of = λ t.
      if t == 1
      then pointer
      else (if t == 2 then text_absolute32 else (if t == 3 then text_pcrel32 else bad));
  dep_count = 1;
}

abbrev world : World
world = record { memory = λ a. 0; unresolved_count = 0 }

-- Image 0 binds two symbols at once and one lazily, image 2 none.
abbrev tables : List Tables
tables =
    record { number = 0; info = image; bound = table; weakly = weak_table; lazily = weak_table }
    ∷ (record { number = 2; info = image; bound = []; weakly = []; lazily = [] } ∷ [])

chain_bound_example :
    bind_chain (λ k. bind linker) (encoded byte_of tables) world
    ≡ bind_tables (λ k. bind linker) tables world
chain_bound_example =
    chain_bound (λ k. bind linker) byte_of tables world
      (reads, table-fits, weak_table-fits, weak_table-fits, (reads, tt, tt, tt, tt))

-- The symbol b is at 0x4000 + 16 * 6, with the Thumb bit.
b_found :
    resolve images (98 ∷ []) 2 (2 ∷ 0 ∷ []) 0
    ≡ done (record { address = 0x4061; found_image = some 0; unresolved_count = 0 })
unfolding resolve
b_found = refl

bind_stores_example :
    (m : Rebase.Memory) × (bind linker
        (record {
          address = 0x6010;
          type = 1;
          name = some (98 ∷ []);
          flags = 0;
          addend = 4;
          ordinal = 1;
        })
        world
      ≡ done (record { memory = m; unresolved_count = 0 }))
    × (load_word m 0x6010 ≡ 0x4065)
    × ((x : ℕ) → (x < 0x6010) ⊎ (0x6014 ≤ x) → m x ≡ 0)
bind_stores_example =
    bind_stores linker
      (record {
        address = 0x6010;
        type = 1;
        name = some (98 ∷ []);
        flags = 0;
        addend = 4;
        ordinal = 1;
      })
      world (98 ∷ []) (record { address = 0x4061; found_image = some 0; unresolved_count = 0 }) refl
      refl (λ h. cc) (omega arith) b_found
