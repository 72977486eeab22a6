-- ===== src/Linker/Resolve/Runs.antt =====
-- Searches in three images: 2, which has no symbols, and 0, which has none but re-exports 1, which has
-- the symbols a, b and c.
use lib_system_and_linker.Prelude.{
  ℕ, ◌+◌, ◌*◌, ◌<◌, ◌≡◌, refl, inl, inr, Bool-cases, ltb, ◌==◌, if◌then◌else◌, true, false, Option,
  none, some, List, [], ◌∷◌, arith,
}
use lib_system_and_linker.Linker.Chain.{contains}
use lib_system_and_linker.Linker.Lookup.{Order, less, equal, greater}
use lib_system_and_linker.Linker.Stream.{done}
use lib_system_and_linker.Linker.Resolve.{
  ClassicObject, classic, Images, own_symbol, find_exported_symbol_classic,
}
use lib_system_and_linker.Linker.Resolve.Tables.{entry, entry_count, classic_symbol_found}
use lib_system_and_linker.Linker.Resolve.First.{Resolves, resolve_finds_first}

abbrev pub first_of : List ℕ → ℕ
first_of [] = 0
first_of (c ∷ name) = c

abbrev pub order_of : ℕ → ℕ → Order
order_of a b = if ltb a b then less else (if a == b then equal else greater)

-- The external symbols stand from index 5 on.
abbrev pub letters : ℕ → ClassicObject
letters count = record {
  compare_key = λ name i. order_of (first_of name) (92 + i);
  tocoff = false;
  toc = λ k. k;
  ntoc = 0;
  iextdefsym = 5;
  nextdefsym = count;
  n_value = λ i. 16 * i;
  is_thumb = λ i. true;
  slide = 0x4000;
}

classic_symbol_found_example :
    (j : ℕ) × (find_exported_symbol_classic (letters 3) (98 ∷ [])
      ≡ done (some (entry (letters 3) j)))
    × (j < entry_count (letters 3))
    × (order_of 98 (92 + entry (letters 3) j) ≡ equal)
classic_symbol_found_example =
    classic_symbol_found (letters 3) (98 ∷ []) (λ j k h l e. ground arith)
      (λ j k h l e. ground arith) 1 (λ t. cc) (omega arith) refl

abbrev pub images : Images
images = record {
  object = λ k. classic (letters (if k == 1 then 3 else 0));
  re_exports = λ i. if i == 0 then 1 ∷ [] else [];
}

abbrev owner : ℕ → Option ℕ
owner k = if k == 1 then some 6 else none

owner-reads : (k : ℕ) → own_symbol (images.object k) (98 ∷ []) ≡ done (owner k)
unfolding own_symbol
owner-reads k = elim (Bool-cases (k == 1)) [ inl e ↦ rw e refl | inr e ↦ rw e refl ]

abbrev rank : ℕ → ℕ
rank i = if i == 0 then 1 else 0

lower : (i j : ℕ) → contains (images.re_exports i) j ≡ true → rank j < rank i
unfolding contains
lower i j h = ground arith

resolve_finds_first_example :
    Resolves images (98 ∷ []) owner owner-reads rank lower 2 (2 ∷ 0 ∷ []) 0
resolve_finds_first_example =
    resolve_finds_first images (98 ∷ []) owner owner-reads rank lower 2 (2 ∷ 0 ∷ []) 0
      (λ im h. ground arith)
