-- ===== src/Linker/Main/Graph.antt =====
-- The dependencies of the images of the chain of core/lnk.cpp, and how far an image's path is from
-- those without dependencies.
use lib_system_and_linker.Prelude.{
  ℕ, suc, ◌+◌, ◌≤◌, ◌<◌, ◌≡◌, ◌≢◌, ◌⊎◌, refl, sym, ◌∙◌, ◌==◌, if◌then◌else◌, true, false,
  Bool-cases, inl, inr, Option, none, some, List, [], ◌∷◌, arith,
}
use lib_system_and_linker.Linker.Chain.{contains}
use lib_system_and_linker.Linker.Chain.Steps.{contains-cases}
use lib_system_and_linker.Linker.Load.{Loaded, Dependency, find_loaded}
use lib_system_and_linker.Linker.Main.{images, deps_of}

-- The linker's own image.
abbrev pub dylinker : Loaded
dylinker = record { image = 0; orig_path = none }

module _ (rank : ℕ → ℕ) where
  abbrev pub path_rank : Option ℕ → ℕ
  path_rank none = 0
  path_rank (some path) = suc (rank path)

  -- The rank of an image of the chain, from its path.
  unfoldable pub image_rank : List Loaded → ℕ → ℕ
  image_rank [] im = 0
  image_rank (l ∷ ls) im = if l.image == im then path_rank l.orig_path else image_rank ls im

  -- The images with numbers below `n` are the same in both chains, and have their ranks.
  abbrev pub SameBelow : ℕ → List Loaded → List Loaded → Type 0
  SameBelow n ls ls' =
      (j : ℕ)
      → j < n
      → (contains (images ls') j ≡ contains (images ls) j) × (image_rank ls' j ≡ image_rank ls j)

  pub SameBelow-behind :
      (n path : ℕ) (first : Loaded) (rest : List Loaded)
      → SameBelow n (first ∷ rest) (first ∷ (record { image = n; orig_path = some path } ∷ rest))
  unfolding contains image_rank
  SameBelow-behind n path first rest j lt =
      let other : (n == j) ≡ false = ground arith in rw other (refl, refl)

  pub image_rank-behind :
      (n path : ℕ) (first : Loaded) (rest : List Loaded)
      → first.image ≢ n
      → (contains (images (first ∷ (record { image = n; orig_path = some path } ∷ rest))) n ≡ true)
        × (image_rank (first ∷ (record { image = n; orig_path = some path } ∷ rest)) n
            ≡ suc (rank path))
  unfolding contains image_rank
  image_rank-behind n path first rest other = (ground (arith, other), ground (arith, other))

  -- What is found by a path has the path's rank and a number below `n`.
  abbrev pub Ranked : ℕ → List Loaded → Type 0
  Ranked n ls =
      (q im : ℕ)
      → find_loaded q ls ≡ some im
      → (im < n) × (contains (images ls) im ≡ true) × (image_rank ls im ≡ suc (rank q))

  found-cases :
      (path q n im : ℕ) (rest : List Loaded)
      → find_loaded q (dylinker ∷ (record { image = n; orig_path = some path } ∷ rest)) ≡ some im
      → ((q ≡ path) × (n ≡ im)) ⊎ (find_loaded q (dylinker ∷ rest) ≡ some im)
  unfolding find_loaded
  found-cases path q n im rest h = elim (Bool-cases (q == path)) [
    | inl y ↦ inl (ground (arith, y), ground (arith, y))
    | inr z ↦ inr (ground (arith, z))
  ]

  pub Ranked-behind :
      (n path : ℕ) (rest : List Loaded)
      → 0 < n
      → Ranked n (dylinker ∷ rest)
      → Ranked (n + 1) (dylinker ∷ (record { image = n; orig_path = some path } ∷ rest))
  Ranked-behind n path rest pos ranked q im h = elim (found-cases path q n im rest h) [
    | inl (e, f) ↦
        let (there, r) = image_rank-behind n path dylinker rest (λ z. omega arith) in
        (omega arith, rw (← f) there, rw (← f, e) r)
    | inr old ↦
        let (lt, there, r) = ranked q im old in
        let (there', r') = SameBelow-behind n path dylinker rest im lt in
        (omega arith, there' ∙ there, r' ∙ r)
  ]

-- An entry of the dependencies, with images below `n` in the chain `ls`.
module _ (rank : ℕ → ℕ) where
  abbrev pub Lowers : List Loaded → ℕ → Dependency → Type 0
  Lowers ls n d =
      (d.image < n)
      × (d.needs < n)
      × (contains (images ls) d.needs ≡ true)
      × (contains (images ls) d.image ≡ true
          → image_rank rank ls d.needs < image_rank rank ls d.image)

  abbrev pub AllLower : List Loaded → ℕ → List Dependency → Type 0
  AllLower ls n [] = Unit
  AllLower ls n (d ∷ ds) = Lowers ls n d × AllLower ls n ds

  pub AllLower-SameBelow :
      (ls ls' : List Loaded) (n n' : ℕ) (ds : List Dependency)
      → n ≤ n'
      → SameBelow rank n ls ls'
      → AllLower ls n ds
      → AllLower ls' n' ds
  AllLower-SameBelow ls ls' n n' [] le same h = tt
  AllLower-SameBelow ls ls' n n' (d ∷ ds) le same ((i, k, there, falls), h) =
      let (there_i, rank_i) = same d.image i in
      let (there_k, rank_k) = same d.needs k in
      (
        (
          omega arith,
          omega arith,
          there_k ∙ there,
          (λ c. rw (rank_i, rank_k) (falls (sym there_i ∙ c))),
        ),
        AllLower-SameBelow ls ls' n n' ds le same h,
      )

  pub needs-Lowers :
      (ls : List Loaded) (n : ℕ) (ds : List Dependency) (im d : ℕ)
      → AllLower ls n ds
      → contains (deps_of ds im) d ≡ true
      → (contains (images ls) d ≡ true)
        × (contains (images ls) im ≡ true → image_rank rank ls d < image_rank rank ls im)
  unfolding contains deps_of
  needs-Lowers ls n [] im d h c = cc
  needs-Lowers ls n (e ∷ ds) im d ((i, k, there, falls), h) c = elim (Bool-cases (e.image == im)) [
    | inr other ↦ needs-Lowers ls n ds im d h (rw other at c)
    | inl same ↦
        let same' : e.image ≡ im = ground (arith, same) in
        elim (contains-cases (deps_of ds im) e.needs d (rw same at c)) [
          | inl here ↦ rw (← here, ← same') (there, falls)
          | inr later ↦ needs-Lowers ls n ds im d h later
        ]
  ]
