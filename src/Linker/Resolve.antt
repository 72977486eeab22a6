-- ===== src/Linker/Resolve.antt =====
-- The search for a symbol through the images: `findExportedSymbol`, `findExportedSymbolClassic`,
-- `exportedSymbolAddress` and `exportedSymbolAddressClassic` of core/lnk_macho.cpp, and `resolve` of
-- core/lnk.cpp.
pub mod Tables
pub mod Reexports
pub mod First
pub mod Runs
use lib_system_and_linker.Prelude.{
  ℕ, zero, suc, ◌+◌, ◌%◌, ◌^◌, Bool, true, false, Option, none, some, List, [], ◌∷◌, bit_or,
  if◌then◌else◌,
}
use lib_system_and_linker.Linker.Stream.{Result, done, spins, ◌>>=◌}
use lib_system_and_linker.Linker.Lookup.{Order, binary_search, binary_search_toc}
use lib_system_and_linker.Linker.Export.{Image, find_exported_symbol, exported_symbol_address}

-- An image without LC_DYLD_INFO. `compare_key` is the sign of the C library's `strcmp` for a name and
-- that of the symbol of `fSymtab` with an index; `tocoff` is whether that is not 0, and `toc` gives the
-- index of an entry's symbol; `n_value` and `is_thumb` (N_ARM_THUMB_DEF) are those of a symbol.
pub record ClassicObject : Type 0 where
  pub compare_key : List ℕ → ℕ → Order
  pub tocoff : Bool
  pub toc : ℕ → ℕ
  pub ntoc : ℕ
  pub iextdefsym : ℕ
  pub nextdefsym : ℕ
  pub n_value : ℕ → ℕ
  pub is_thumb : ℕ → Bool
  pub slide : ℕ

-- `fIsClassic`, with what the search reads.
pub data Object : Type 0 where
  compressed : Image → Object
  classic : ClassicObject → Object

-- `Symbol`: in a classic image `addr` is the index of the symbol in place of its address.
pub record Symbol : Type 0 where
  pub addr : ℕ
  pub in_image : ℕ

abbrev pub shift : (ℕ → ℕ) → Option ℕ → Option ℕ
shift f none = none
shift f (some k) = some (f k)

unfoldable pub find_exported_symbol_classic : ClassicObject → List ℕ → Result (Option ℕ)
unfolding binary_search binary_search_toc
find_exported_symbol_classic c name =
    if c.tocoff
    then (binary_search_toc (λ k. c.compare_key name (c.toc k)) c.ntoc c.nextdefsym >>= λ o.
        done (shift c.toc o))
    else done (
        shift (λ k. c.iextdefsym + k)
          (binary_search (λ k. c.compare_key name (c.iextdefsym + k)) c.nextdefsym))

unfoldable pub exported_symbol_address_classic : ClassicObject → ℕ → ℕ
exported_symbol_address_classic c sym =
    let result : ℕ = (c.n_value sym + c.slide) % 2 ^ 32 in
    if c.is_thumb sym then bit_or result 1 else result

-- The first lines of `findExportedSymbol`.
unfoldable pub own_symbol : Object → List ℕ → Result (Option ℕ)
unfolding find_exported_symbol find_exported_symbol_classic
own_symbol (compressed im) symbol = find_exported_symbol im symbol
own_symbol (classic c) symbol = find_exported_symbol_classic c symbol

-- `exportedSymbolAddress`.
unfoldable pub symbol_address : Object → ℕ → Result ℕ
unfolding exported_symbol_address exported_symbol_address_classic
symbol_address (compressed im) addr = exported_symbol_address im addr
symbol_address (classic c) addr = done (exported_symbol_address_classic c addr)

-- The images, by number, and the `fReExports` of each.
pub record Images : Type 0 where
  pub object : ℕ → Object
  pub re_exports : ℕ → List ℕ

-- The loop over the re-exported images.
unfoldable pub find_any : (ℕ → Result (Option Symbol)) → List ℕ → Result (Option Symbol)
find_any find [] = done none
find_any find (im ∷ ims) =
    find im >>= λ o. elim o [ some sym ↦ done (some sym) | none ↦ find_any find ims ]

-- What `resolve` returns and leaves behind: `found_image` is `none` where `*foundImage` is left as it
-- was, and `unresolved_count` is `sUnresolvedCount`.
pub record Resolved : Type 0 where
  pub address : ℕ
  pub found_image : Option ℕ
  pub unresolved_count : ℕ

module _ (images : Images) (symbol : List ℕ) where
  -- `findExportedSymbol`, to a depth of re-exports.
  unfoldable pub find_exported : ℕ → ℕ → Result (Option Symbol)
  unfolding own_symbol find_any
  find_exported zero im = spins
  find_exported (suc depth) im = own_symbol (images.object im) symbol >>= λ o. elim o [
    | some addr ↦ done (some (record { addr = addr; in_image = im }))
    | none ↦ find_any (find_exported depth) (images.re_exports im)
  ]

  -- `resolve`, where `chain` are the images from `sFirstImage` on. The test of the ordinal is `|| 1`.
  unfoldable pub resolve : ℕ → List ℕ → ℕ → Result Resolved
  unfolding find_exported symbol_address
  resolve depth [] unresolved =
      let count : ℕ = (unresolved + 1) % 2 ^ 32 in
      done (record { address = count; found_image = none; unresolved_count = count })
  resolve depth (im ∷ chain) unresolved = find_exported depth im >>= λ o. elim o [
    | some sym ↦ symbol_address (images.object sym.in_image) sym.addr >>= λ address.
        done (record { address = address; found_image = some im; unresolved_count = unresolved })
    | none ↦ resolve depth chain unresolved
  ]
