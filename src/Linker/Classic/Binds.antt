-- ===== src/Linker/Classic/Binds.antt =====
-- `classicBindIndirect`, `classicBindExterns` and `doBindSymbols` of core/lnk_macho.cpp: the binding of
-- an image without the bind opcodes.
pub mod Pointers
pub mod Bound
mod Runs
use lib_system_and_linker.Prelude.{
  ℕ, zero, suc, ◌+◌, ◌-◌, ◌/◌, ◌%◌, ◌^◌, ◌==◌, ◌&&◌, if◌then◌else◌, Bool, true, false, Option, none,
  some, List, [], ◌∷◌,
}
use lib_system_and_linker.Linker.Stream.{Result, done, halts, strays, ◌>>=◌}
use lib_system_and_linker.Linker.Rebase.{load_word, store_word, word_mod}
use lib_system_and_linker.Linker.Bind
use lib_system_and_linker.Linker.Bind.{Request, do_bind_symbols}
use lib_system_and_linker.Linker.Bind.Apply.{World}
use lib_system_and_linker.Linker.Commands.{
  SectionType, mod_init_func_pointers, non_lazy_symbol_pointers, lazy_symbol_pointers, Section,
  Command, segment, MachObject,
}
use lib_system_and_linker.Linker.Classic.{classic_reloc_base, opcode_stream}

-- An entry of the table of indirect symbols: INDIRECT_SYMBOL_LOCAL, INDIRECT_SYMBOL_ABS, or an index of
-- `fSymtab`.
pub data Indirect : Type 0 where
  is_local : Indirect
  is_absolute : Indirect
  symbol : ℕ → Indirect

-- An entry of `fSymtab`: its name, GET_LIBRARY_ORDINAL of `n_desc`, `n_value`, whether its type is
-- N_SECT, and whether N_ARM_THUMB_DEF is set.
pub record Nlist : Type 0 where
  pub name : List ℕ
  pub ordinal : ℕ
  pub n_value : ℕ
  pub is_sect : Bool
  pub is_thumb_def : Bool

-- An external relocation: its address, whether its length is RELOC_SIZE, whether its type is
-- POINTER_RELOC, and its symbol.
pub record Extern : Type 0 where
  pub address : ℕ
  pub is_word : Bool
  pub is_pointer : Bool
  pub symbolnum : ℕ

-- The tables of an image, and BIND_TYPE_POINTER.
pub record Tables : Type 0 where
  pub indirect : ℕ → Indirect
  pub symtab : ℕ → Nlist
  pub externs : List Extern
  pub pointer : ℕ

abbrev pub has_pointers : SectionType → Bool
has_pointers mod_init_func_pointers = false
has_pointers non_lazy_symbol_pointers = true
has_pointers lazy_symbol_pointers = true
has_pointers SectionType.other = false

-- The arguments of `bind` for the symbol with an index.
abbrev pub request_for : Tables → ℕ → ℕ → ℕ → Request
request_for t address addend k = record {
  address = address;
  type = t.pointer;
  name = some (t.symtab k).name;
  flags = 0;
  addend = addend;
  ordinal = (t.symtab k).ordinal;
}

module _ (bind : Request → World → Result World) (t : Tables) (slide : ℕ) where
  -- One pointer.
  unfoldable pub bind_pointer : Indirect → ℕ → World → Result World
  bind_pointer is_local ptr w =
      done (record w {
        memory = store_word w.memory ptr ((load_word w.memory ptr + slide) % word_mod);
      })
  bind_pointer is_absolute ptr w = halts
  bind_pointer (symbol k) ptr w = if k == 0 then halts else bind (request_for t ptr 0 k) w

  -- The loop over the pointers of a section, of which `count` are left.
  unfoldable pub bind_pointers : ℕ → ℕ → ℕ → World → Result World
  unfolding bind_pointer
  bind_pointers zero index ptr w = done w
  bind_pointers (suc count) index ptr w =
      bind_pointer (t.indirect index) ptr w
      >>= bind_pointers count ((index + 1) % word_mod) ((ptr + 4) % word_mod)

  unfoldable pub bind_sections : List Section → World → Result World
  unfolding bind_pointers
  bind_sections [] w = done w
  bind_sections (sect ∷ sects) w =
      (if has_pointers sect.type
        then bind_pointers (sect.size / 4) sect.reserved1 ((sect.addr + slide) % word_mod) w
        else done w)
      >>= bind_sections sects

  -- The loop over the commands behind the header.
  unfoldable pub classic_bind_indirect : List (ℕ × Command) → World → Result World
  unfolding bind_sections
  classic_bind_indirect [] w = done w
  classic_bind_indirect ((a, segment seg) ∷ cs) w =
      bind_sections seg.sections w >>= classic_bind_indirect cs
  classic_bind_indirect ((a, _) ∷ cs) w = classic_bind_indirect cs w

  -- One external relocation: what its word has beyond the symbol's value is the addend.
  unfoldable pub bind_extern : ℕ → Extern → World → Result World
  bind_extern base r w =
      let sym = t.symtab r.symbolnum in
      let location : ℕ = (r.address + base) % word_mod in
      let value : ℕ = (load_word w.memory location + word_mod - sym.n_value) % word_mod in
      if r.is_word
      then (if r.is_pointer
          then (if sym.is_sect && sym.is_thumb_def
              then halts
              else bind (request_for t location value r.symbolnum) w)
          else halts)
      else halts

  unfoldable pub bind_externs : ℕ → List Extern → World → Result World
  unfolding bind_extern
  bind_externs base [] w = done w
  bind_externs base (r ∷ rs) w = bind_extern base r w >>= bind_externs base rs

  unfoldable pub classic_bind_externs : Bool → MachObject → World → Result World
  unfolding bind_externs
  classic_bind_externs is_split_seg o w =
      classic_reloc_base is_split_seg o >>= λ base. bind_externs base t.externs w

-- `bind_off`, `bind_size` and so on, of `fDyldInfo`.
pub record BindInfo : Type 0 where
  pub bound : ℕ × ℕ
  pub weakly : ℕ × ℕ
  pub lazily : ℕ × ℕ

-- `doBindSymbols`. The opcodes are those that memory holds at first.
unfoldable pub bind_image :
    (Request → World → Result World)
    → Tables
    → Bind.Image
    → Bool
    → List (ℕ × Command)
    → Option BindInfo
    → MachObject
    → World
    → Result World
unfolding classic_bind_indirect classic_bind_externs opcode_stream
bind_image bind t im is_split_seg cs info o w = elim o.is_classic [
  | true ↦
      classic_bind_indirect bind t o.slide cs w
      >>= classic_bind_externs bind t o.slide is_split_seg o
  | false ↦ elim info [
    | none ↦ halts
    | some i ↦
        do_bind_symbols bind im (opcode_stream w.memory o.linkedit_base i.bound)
          (opcode_stream w.memory o.linkedit_base i.weakly)
          (opcode_stream w.memory o.linkedit_base i.lazily) w
  ]
]
