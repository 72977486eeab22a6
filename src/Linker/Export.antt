-- ===== src/Linker/Export.antt =====
-- The exported symbols of an image, of core/lnk_macho.cpp: `findExportedSymbolCompressed`,
-- `exportedSymbolAddressCompressed` and `exportedSymbolAddressClassic`.
pub mod Address
mod Runs
use lib_system_and_linker.Prelude.{
  ◌==◌, ℕ, ◌+◌, ◌-◌, ◌%◌, ◌^◌, ltb, ◌||◌, Bool, true, false, Option, none, some, List, [], ◌∷◌,
  length, drop, bit_or,
}
use lib_system_and_linker.Linker.Stream.{Result, done, halts, ◌>>=◌, read_uleb128}
use lib_system_and_linker.Linker.Trie.{trie_walk}

-- `flags & EXPORT_SYMBOL_FLAGS_KIND_MASK`
pub data Kind : Type 0 where
  regular : Kind
  is_thread_local : Kind
  other : Kind

-- The flags' meaning is that of mach-o/loader.h, a header of the host's.
-- `start` is `fLinkEditBase + export_off`, `trie` the `export_size` bytes from there, and `header`
-- `fHeader`.
pub record Image : Type 0 where
  pub kind : ℕ → Kind
  pub is_reexport : ℕ → Bool
  pub has_resolver : ℕ → Bool
  pub start : ℕ
  pub trie : List ℕ
  pub header : ℕ

-- Whether the symbol is found, with `sym->addr`.
unfoldable pub find_exported_symbol : Image → List ℕ → Result (Option ℕ)
find_exported_symbol im symbol = elim (length im.trie == 0) [
  | true ↦ done none
  | false ↦ trie_walk im.trie symbol >>= λ o. elim o [
    | none ↦ done none
    | some node ↦ read_uleb128 node >>= λ r. elim (im.is_reexport r.0) [
      | true ↦ halts
      | false ↦ done (some (im.start + (length im.trie - length node)))
    ]
  ]
]

-- `read_uleb128(exportNode, end) + (uintptr_t)fHeader`
abbrev pub from_header : Image → List ℕ → Result ℕ
from_header im p = read_uleb128 p >>= λ r. done ((r.0 + im.header) % 2 ^ 32)

unfoldable pub exported_symbol_address : Image → ℕ → Result ℕ
exported_symbol_address im addr = elim (ltb addr im.start || ltb (im.start + length im.trie) addr) [
  | true ↦ halts
  | false ↦ read_uleb128 (drop (addr - im.start) im.trie) >>= λ r. elim (im.kind r.0) [
    | regular ↦ elim (im.has_resolver r.0) [ true ↦ halts | false ↦ from_header im r.1 ]
    | is_thread_local ↦ elim (im.has_resolver r.0) [ true ↦ halts | false ↦ from_header im r.1 ]
    | other ↦ halts
  ]
]
