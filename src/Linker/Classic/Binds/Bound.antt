-- ===== src/Linker/Classic/Binds/Bound.antt =====
-- What `classicBindIndirect` of core/lnk_macho.cpp leaves in memory, with the `bind` of that file.
use lib_system_and_linker.Prelude.{ℕ, ◌+◌, ◌%◌, ◌≡◌, ◌≢◌, ◌<◌, false, Option, List, [], ◌∷◌}
use lib_system_and_linker.Linker.Stream.{done}
use lib_system_and_linker.Linker.Rebase.{Memory, load_word, word_mod}
use lib_system_and_linker.Linker.Resolve.{resolve}
use lib_system_and_linker.Linker.Bind.Apply.{Linker, World, out_of_range}
use lib_system_and_linker.Linker.Classic.Binds.{Indirect, is_local, is_absolute, symbol, Tables}

-- The addresses of the symbols, by index.
module _ (l : Linker) (t : Tables) (slide : ℕ) (address : ℕ → ℕ) where
  -- A local pointer, or a symbol that is not the first one, whose ordinal is in range, and which `resolve`
  -- finds.
  abbrev pub Bindable : Indirect → Type 0
  Bindable is_local = Unit {0}
  Bindable is_absolute = ⊥
  Bindable (symbol k) =
      (k ≢ 0)
      × (out_of_range l (t.symtab k).ordinal ≡ false)
      × ((u : ℕ)
          → (im : Option ℕ) × (resolve l.images (t.symtab k).name l.depth l.chain u
              ≡ done (record { address = address k; found_image = im; unresolved_count = u })))

  abbrev pub AllBindable : List (ℕ × Indirect) → Type 0
  AllBindable [] = Unit
  AllBindable ((ptr, e) ∷ es) = (ptr < word_mod) × Bindable e × AllBindable es

  -- What a pointer is to hold, from what it held.
  abbrev pub pointer_value : Indirect → ℕ → ℕ
  pointer_value is_local old = (old + slide) % word_mod
  pointer_value is_absolute old = old
  pointer_value (symbol k) old = address k % word_mod

  abbrev pub AllBound : Memory → Memory → List (ℕ × Indirect) → Type 0
  AllBound m m' [] = Unit
  AllBound m m' ((ptr, e) ∷ es) =
      (load_word m' ptr ≡ pointer_value e (load_word m ptr)) × AllBound m m' es

  abbrev pub pointers : List (ℕ × Indirect) → List ℕ
  pointers [] = []
  pointers ((ptr, e) ∷ es) = ptr ∷ pointers es

  abbrev with_memory : Memory → World → World
  with_memory m w = record w { memory = m }
