-- ===== src/Linker/Load/Counts.antt =====
-- How often a path stands in the chain of core/lnk.cpp, and how many paths are still to be loaded.
use lib_system_and_linker.Prelude.{
  ℕ_discrete, ℕ, ◌+◌, ◌<◌, ◌≤◌, ◌≡◌, ◌==◌, inl, inr, refl, if◌then◌else◌, true, Bool-cases, none,
  some, List, [], ◌∷◌, arith,
}
use lib_system_and_linker.Linker.Chain.{contains}
use lib_system_and_linker.Linker.Load.{Loaded, has_path, find_loaded}

unfoldable pub copies : ℕ → List Loaded → ℕ
copies path [] = 0
copies path (l ∷ ls) = (if has_path path l then 1 else 0) + copies path ls

-- The paths that the chain does not have.
unfoldable pub unloaded : List ℕ → List Loaded → ℕ
unfolding copies
unloaded [] ls = 0
unloaded (p ∷ ps) ls = (if copies p ls == 0 then 1 else 0) + unloaded ps ls

pub find_loaded-copies :
    (path : ℕ) (ls : List Loaded) → find_loaded path ls ≡ none → copies path ls ≡ 0
unfolding find_loaded copies
find_loaded-copies path [] h = refl
find_loaded-copies path (l ∷ ls) h = elim (Bool-cases (has_path path l)) [
  | inl y ↦ cc
  | inr n ↦ ground (arith, n, find_loaded-copies path ls)
]

pub found-copies :
    (path im : ℕ) (ls : List Loaded) → find_loaded path ls ≡ some im → 0 < copies path ls
unfolding find_loaded copies
found-copies path im [] h = cc
found-copies path im (l ∷ ls) h = elim (Bool-cases (has_path path l)) [
  | inl y ↦ rw y (omega arith)
  | inr n ↦ ground (arith, n, found-copies path im ls)
]

-- A new image behind the first one.
pub copies-behind :
    (path q im : ℕ) (first : Loaded) (rest : List Loaded)
    → copies q (first ∷ (record { image = im; orig_path = some path } ∷ rest))
      ≡ (if q == path then 1 else 0) + copies q (first ∷ rest)
unfolding copies
copies-behind path q im first rest = omega arith

abbrev pub Grows : List Loaded → List Loaded → Type 0
Grows ls ls' = (q : ℕ) → copies q ls ≤ copies q ls'

pub unloaded-le :
    (ps : List ℕ) (ls ls' : List Loaded) → Grows ls ls' → unloaded ps ls' ≤ unloaded ps ls
unfolding unloaded
unloaded-le [] ls ls' g = omega arith
unloaded-le (p ∷ ps) ls ls' g = ground (arith, g p, unloaded-le ps ls ls' g)

pub unloaded-lt :
    (ps : List ℕ) (ls ls' : List Loaded) (p : ℕ)
    → Grows ls ls'
    → contains ps p ≡ true
    → copies p ls ≡ 0
    → 0 < copies p ls'
    → unloaded ps ls' < unloaded ps ls
unfolding unloaded contains
unloaded-lt [] ls ls' p g c a b = cc
unloaded-lt (q ∷ ps) ls ls' p g c a b = elim (ℕ_discrete q p) [
  | yes e ↦
      let before : copies q ls ≡ 0 = rw e a in
      let after : 0 < copies q ls' = rw e b in
      ground (arith, before, after, unloaded-le ps ls ls' g)
  | no n ↦
      let inside : contains ps p ≡ true = ground (arith, n, c) in
      ground (arith, g q, unloaded-lt ps ls ls' p g inside a b)
]
