-- ===== src/Linker/Resolve/Tables.antt =====
-- `findExportedSymbolClassic` of core/lnk_macho.cpp on sorted tables.
use lib_system_and_linker.Prelude.{
  ◌^◌, ℕ, ◌+◌, ◌<◌, ◌≤◌, ◌≡◌, ◌∙◌, ap, refl, inl, inr, Bool-cases, true, false, some, List,
  if◌then◌else◌,
}
use lib_system_and_linker.Linker.Stream.{done, ◌>>=◌}
use lib_system_and_linker.Linker.Lookup.{less, equal, greater, binary_search, binary_search_toc}
use lib_system_and_linker.Linker.Lookup.Search.{binary_search_finds}
use lib_system_and_linker.Linker.Lookup.Toc.{binary_search_toc_finds}
use lib_system_and_linker.Linker.Resolve.{ClassicObject, shift, find_exported_symbol_classic}

-- The symbol of an entry of the table that is searched, and the number of its entries.
abbrev pub entry : ClassicObject → ℕ → ℕ
entry c k = if c.tocoff then c.toc k else c.iextdefsym + k

abbrev pub entry_count : ClassicObject → ℕ
entry_count c = if c.tocoff then c.ntoc else c.nextdefsym

module _ (c : ClassicObject) (name : List ℕ) where
  contents_searched :
      c.tocoff ≡ true
      → find_exported_symbol_classic c name ≡ (
          binary_search_toc (λ k. c.compare_key name (entry c k)) (entry_count c) c.nextdefsym
          >>= λ o. done (shift (entry c) o))
  unfolding find_exported_symbol_classic
  contents_searched t = rw t refl

  symbols_searched :
      c.tocoff ≡ false
      → find_exported_symbol_classic c name
        ≡ done
            (shift (entry c) (binary_search (λ k. c.compare_key name (entry c k)) (entry_count c)))
  unfolding find_exported_symbol_classic
  symbols_searched t = rw t refl

module _ (c : ClassicObject) (name : List ℕ)
    (below : (j k : ℕ)
      → j ≤ k
      → k < entry_count c
      → c.compare_key name (entry c k) ≡ greater
      → c.compare_key name (entry c j) ≡ greater)
    (above : (j k : ℕ)
      → j ≤ k
      → k < entry_count c
      → c.compare_key name (entry c j) ≡ less
      → c.compare_key name (entry c k) ≡ less) where
  in_contents :
      (i : ℕ)
      → c.tocoff ≡ true
      → (c.ntoc ≤ 2 ^ 30) × (c.nextdefsym < 2 ^ 31)
      → i < entry_count c
      → c.compare_key name (entry c i) ≡ equal
      → (j : ℕ) × (find_exported_symbol_classic c name ≡ done (some (entry c j)))
        × (j < entry_count c)
        × (c.compare_key name (entry c j) ≡ equal)
  in_contents i t (few, small) h e =
      let (j, f, b, r) =
        binary_search_toc_finds (λ k. c.compare_key name (entry c k)) (entry_count c) below above
          c.nextdefsym i (rw t few) small h e in
      (j, contents_searched c name t ∙ ap (λ r. r >>= λ o. done (shift (entry c) o)) f, b, r)

  in_symbols :
      (i : ℕ)
      → c.tocoff ≡ false
      → i < entry_count c
      → c.compare_key name (entry c i) ≡ equal
      → (j : ℕ) × (find_exported_symbol_classic c name ≡ done (some (entry c j)))
        × (j < entry_count c)
        × (c.compare_key name (entry c j) ≡ equal)
  in_symbols i t h e =
      let (j, f, b, r) =
        binary_search_finds (λ k. c.compare_key name (entry c k)) (entry_count c) below above i h
          e in
      (j, symbols_searched c name t ∙ ap (λ o. done (shift (entry c) o)) f, b, r)

  -- Where the table that is searched (the table of contents if there is one, else the external symbols)
  -- is sorted and one of its symbols has the name, a symbol of the table with that name is found, where a
  -- table of contents has at most 2^30 entries and there are less than 2^31 external symbols.
  pub classic_symbol_found :
      (i : ℕ)
      → (c.tocoff ≡ true → (c.ntoc ≤ 2 ^ 30) × (c.nextdefsym < 2 ^ 31))
      → i < entry_count c
      → c.compare_key name (entry c i) ≡ equal
      → (j : ℕ) × (find_exported_symbol_classic c name ≡ done (some (entry c j)))
        × (j < entry_count c)
        × (c.compare_key name (entry c j) ≡ equal)
  classic_symbol_found i bounded h e = elim (Bool-cases c.tocoff) [
    | inl t ↦ in_contents i t (bounded t) h e
    | inr t ↦ in_symbols i t h e
  ]
