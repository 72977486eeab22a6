-- ===== src/Linker/Export/Runs.antt =====
-- A search in the trie with the names _a and _b, with constants in place of those of mach-o/loader.h.
use lib_system_and_linker.Prelude.{
  ◌++◌, ◌/◌, ℕ, ◌%◌, ◌≡◌, refl, ◌==◌, some, [], ◌∷◌, arith, if◌then◌else◌,
}
use lib_system_and_linker.Linker.Stream.{done}
use lib_system_and_linker.Linker.Stream.Encode.{uleb, uleb_bytes}
use lib_system_and_linker.Linker.Trie.Tree.{find, strip}
use lib_system_and_linker.Linker.Trie.Runs.{names, bytes, bytes-Lays}
use lib_system_and_linker.Linker.Export.{
  regular, is_thread_local, other, Image, find_exported_symbol, exported_symbol_address,
}
use lib_system_and_linker.Linker.Export.Address.{exported_symbol_found}

abbrev image : Image
image = record {
  kind = λ f. if f % 4 == 0 then regular else (if f % 4 == 1 then is_thread_local else other);
  is_reexport = λ f. f / 8 % 2 == 1;
  has_resolver = λ f. f / 16 % 2 == 1;
  start = 0x9000;
  trie = bytes;
  header = 0x1000;
}

names-b : find names (95 ∷ 98 ∷ []) ≡ some (uleb 0 ++ (uleb 32 ++ []))
unfolding find strip uleb uleb_bytes
names-b = refl

exported_symbol_found_example :
    (addr : ℕ) × (find_exported_symbol image (95 ∷ 98 ∷ []) ≡ done (some addr))
    × (exported_symbol_address image addr ≡ done 0x1020)
exported_symbol_found_example =
    exported_symbol_found image names (95 ∷ 98 ∷ []) [] 0 32 bytes-Lays
      (λ h. omega arith, (λ h. omega arith, tt)) names-b (omega arith) (omega arith) refl (λ h. cc)
      refl
