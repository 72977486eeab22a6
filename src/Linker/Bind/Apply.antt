-- ===== src/Linker/Bind/Apply.antt =====
-- `bind` of core/lnk_macho.cpp: the address of a symbol, written to its place.
pub mod Stores
use lib_system_and_linker.Prelude.{
  ℕ, ◌+◌, ◌-◌, ◌*◌, ◌%◌, ◌^◌, ltb, ◌&&◌, if◌then◌else◌, Bool, true, false, Option, none, some, List,
}
use lib_system_and_linker.Linker.Stream.{Result, done, halts, strays, ◌>>=◌}
use lib_system_and_linker.Linker.Rebase.{Memory, store_word, word_mod}
use lib_system_and_linker.Linker.Resolve.{Images, Resolved, resolve}
use lib_system_and_linker.Linker.Bind.{Request}

-- The types of mach-o/loader.h.
pub data BindType : Type 0 where
  pointer : BindType
  text_absolute32 : BindType
  text_pcrel32 : BindType
  bad : BindType

-- The images and their chain, as `resolve` has them, to a depth of re-exports; the types; and
-- `fDepCount`.
pub record Linker : Type 0 where
  pub images : Images
  pub depth : ℕ
  pub chain : List ℕ
  pub type_of : ℕ → BindType
  pub dep_count : ℕ

-- `unresolved_count` is `sUnresolvedCount`.
pub record World : Type 0 where
  pub memory : Memory
  pub unresolved_count : ℕ

-- `reqOrdinal > fDepCount`, where the ordinal is an int.
abbrev pub out_of_range : Linker → ℕ → Bool
out_of_range l ordinal = ltb ordinal (2 ^ 31) && ltb (l.dep_count + 1) ordinal

-- `value32` of BIND_TYPE_TEXT_PCREL32.
abbrev pub relative : ℕ → ℕ → ℕ
relative address value = (value + 2 * word_mod - (address + 4)) % word_mod

-- The switch.
unfoldable pub update : BindType → ℕ → ℕ → Memory → Result Memory
unfolding store_word
update pointer address value m = done (store_word m address value)
update text_absolute32 address value m = done (store_word m address value)
update text_pcrel32 address value m = done (store_word m address (relative address value))
update bad address value m = halts

-- A NULL name is passed to `strcmp`.
unfoldable pub bind : Linker → Request → World → Result World
unfolding update resolve
bind l r w = elim (out_of_range l r.ordinal) [
  | true ↦ halts
  | false ↦ elim r.name [
    | none ↦ strays
    | some name ↦ do
      found ← resolve l.images name l.depth l.chain w.unresolved_count
      memory ← update (l.type_of r.type) r.address ((found.address + r.addend) % word_mod) w.memory
      done (record { memory = memory; unresolved_count = found.unresolved_count })
  ]
]
