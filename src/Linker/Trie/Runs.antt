-- ===== src/Linker/Trie/Runs.antt =====
-- `trie_walk` of core/lnk_util.cpp on a trie with the names _a and _b.
use lib_system_and_linker.Prelude.{drop, ℕ, ◌≡◌, ◌⊎◌, List, [], ◌∷◌, ◌++◌, arith, none, some, refl}
use lib_system_and_linker.Linker.Stream.{done}
use lib_system_and_linker.Linker.Stream.Encode.{uleb, uleb_bytes}
use lib_system_and_linker.Linker.Trie.{drop, trie_walk}
use lib_system_and_linker.Linker.Trie.Tree.{Tree, node, nil, kid, kid_count, find, Lays, LaysKids}
use lib_system_and_linker.Linker.Trie.Walk.{trie_walk_finds}

abbrev pub leaf : ℕ → Tree
leaf address = node (0 ∷ address ∷ []) nil

abbrev pub names : Tree
names =
    node [] (kid (95 ∷ []) (node [] (kid (97 ∷ []) (leaf 16) (kid (98 ∷ []) (leaf 32) nil))) nil)

abbrev pub bytes : List ℕ
bytes =
    0 ∷ 1 ∷ 95 ∷ 0 ∷ 5 ∷ 0 ∷ 2 ∷ 97 ∷ 0 ∷ 13 ∷ 98 ∷ 0 ∷ 17 ∷ 2 ∷ 0 ∷ 16 ∷ 0 ∷ 2 ∷ 0 ∷ 32 ∷ 0 ∷ []

pub bytes-Lays : Lays bytes names bytes
unfolding Lays LaysKids uleb kid_count uleb_bytes
bytes-Lays = (
  drop 2 bytes,
  refl,
  omega arith,
  (
    5,
    drop 5 bytes,
    refl,
    refl,
    (λ h. omega arith, tt),
    (λ h. omega arith),
    omega arith,
    (
      drop 7 bytes,
      refl,
      omega arith,
      (
        13,
        drop 10 bytes,
        refl,
        refl,
        (λ h. omega arith, tt),
        (λ h. omega arith),
        omega arith,
        (drop 17 bytes, refl, omega arith, tt),
        (
          17,
          drop 13 bytes,
          refl,
          refl,
          (λ h. omega arith, tt),
          (λ h. omega arith),
          omega arith,
          (drop 21 bytes, refl, omega arith, tt),
          tt,
        ),
      ),
    ),
    tt,
  ),
)

trie_walk_finds_example :
    ((find names (95 ∷ 98 ∷ []) ≡ none) × (trie_walk bytes (95 ∷ 98 ∷ []) ≡ done none))
    ⊎ ((info : List ℕ) × (rest : List ℕ) × (n : ℕ) × (find names (95 ∷ 98 ∷ []) ≡ some info)
        × (trie_walk bytes (95 ∷ 98 ∷ []) ≡ done (some (info ++ rest)))
        × (drop n bytes ≡ info ++ rest))
trie_walk_finds_example =
    trie_walk_finds bytes names (95 ∷ 98 ∷ []) bytes-Lays (λ h. omega arith, (λ h. omega arith, tt))
