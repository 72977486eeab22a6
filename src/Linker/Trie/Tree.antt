-- ===== src/Linker/Trie/Tree.antt =====
-- What an export trie stands for, as core/lnk_util.cpp reads it: a tree whose edges bear characters.
use lib_system_and_linker.Prelude.{
  ◌^◌, ℕ, suc, ◌<◌, ◌≡◌, ◌≢◌, ◌==◌, not, ◌&&◌, if◌then◌else◌, Bool, true, false, Option, none, some,
  List, [], ◌∷◌, ◌++◌, length, drop,
}
use lib_system_and_linker.Linker.Stream.Encode.{uleb}

-- A node bears the export information of the name that ends at it, `[]` for none.
mutual
  pub data Tree : Type 0 where
    node : (info : List ℕ) → Kids → Tree

  pub data Kids : Type 0 where
    nil : Kids
    kid : (edge : List ℕ) → Tree → Kids → Kids

-- The characters of `s` behind `edge`, `none` where `s` does not begin with it.
unfoldable pub strip : List ℕ → List ℕ → Option (List ℕ)
strip [] s = some s
strip (c ∷ edge) [] = none
strip (c ∷ edge) (d ∷ s) = if c == d then strip edge s else none

-- Nonzero characters only.
abbrev pub NoZero : List ℕ → Type 0
NoZero [] = Unit
NoZero (c ∷ s) = (c ≢ 0) × NoZero s

abbrev pub nonempty : List ℕ → Bool
nonempty [] = false
nonempty (x ∷ xs) = true

-- The information of the name `s`.
unfoldable mutual
  pub find : Tree → List ℕ → Option (List ℕ)
  find (node info kids) s = elim (not (nonempty s) && nonempty info) [
    | true ↦ some info
    | false ↦ find_in kids s
  ]

  pub find_in : Kids → List ℕ → Option (List ℕ)
  find_in nil s = none
  find_in (kid edge t kids) s = elim (strip edge s) [ none ↦ find_in kids s | some s' ↦ find t s' ]

unfoldable pub kid_count : Kids → ℕ
kid_count nil = 0
kid_count (kid edge t kids) = suc (kid_count kids)

-- The tree is laid out from `p` on, with its nodes at offsets from `start`: the size of the
-- information, the information, the number of children, and for each child its edge with '\0' behind
-- it and the offset of its node.
module _ (start : List ℕ) where
  unfoldable mutual
    pub Lays : Tree → List ℕ → Type 0
    Lays (node info kids) p =
        (q : List ℕ) × (p ≡ uleb (length info) ++ (info ++ (kid_count kids ∷ q)))
        × (length info < 2 ^ 32)
        × LaysKids kids q

    pub LaysKids : Kids → List ℕ → Type 0
    LaysKids nil q = Unit
    LaysKids (kid edge t kids) q =
        (offset : ℕ) × (q' : List ℕ) × (q ≡ edge ++ (0 ∷ (uleb offset ++ q')))
        × (nonempty edge ≡ true)
        × NoZero edge
        × (offset ≢ 0)
        × (offset < 2 ^ 32)
        × Lays t (drop offset start)
        × LaysKids kids q'
