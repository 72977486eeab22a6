-- ===== src/Linker/Trie/Walk.antt =====
-- `trie_walk` of core/lnk_util.cpp finds in the bytes what the tree has.
use lib_system_and_linker.Prelude.{
  ℕ, zero, suc, ◌+◌, ◌^◌, ◌<◌, ◌≡◌, ◌≢◌, ◌⊎◌, ◌∙◌, inl, inr, refl, ap, ◌==◌, not, ◌&&◌, true, false,
  Bool-cases, Option, none, some, List, [], ◌∷◌, ◌++◌, length, drop, arith,
}
use lib_system_and_linker.Linker.Stream.{Result, done, ◌>>=◌}
use lib_system_and_linker.Linker.Stream.Encode.{uleb}
use lib_system_and_linker.Linker.Trie.{is_end, find_child, walk, trie_walk}
use lib_system_and_linker.Linker.Trie.Tree.{
  Tree, node, Kids, NoZero, nonempty, find, find_in, kid_count, Lays,
}
use lib_system_and_linker.Linker.Trie.Children.{Child-find}
use lib_system_and_linker.Linker.Trie.Edges.{drop-append, drop-behind, read_size-uleb}

-- The test of the code is the test of the tree.
ends-here :
    (info s : List ℕ)
    → NoZero s
    → (is_end s && not (length info == 0)) ≡ (not (nonempty s) && nonempty info)
ends-here [] [] z = refl
ends-here (x ∷ info) [] z = ground arith
ends-here info (c ∷ s) z = ground (arith, z.0)

find-here :
    (info s : List ℕ) (ks : Kids)
    → (not (nonempty s) && nonempty info) ≡ true
    → find (node info ks) s ≡ some info
unfolding find
find-here info s ks h = ground (arith, h)

find-on :
    (info s : List ℕ) (ks : Kids)
    → (not (nonempty s) && nonempty info) ≡ false
    → find (node info ks) s ≡ find_in ks s
unfolding find
find-on info s ks h = ground (arith, h)

module _ (start : List ℕ) where
  -- What a walk from the node of `t` returns for the name `s`.
  abbrev Found : Tree → List ℕ → Result (Option (List ℕ)) → Type 0
  Found t s r =
      ((find t s ≡ none) × (r ≡ done none))
      ⊎ ((info : List ℕ) × (rest : List ℕ) × (n : ℕ) × (find t s ≡ some info)
          × (r ≡ done (some (info ++ rest)))
          × (drop n start ≡ info ++ rest))

  Found-as :
      (t t' : Tree) (s s' : List ℕ) (r r' : Result (Option (List ℕ)))
      → find t s ≡ find t' s'
      → r ≡ r'
      → Found t' s' r'
      → Found t s r
  Found-as t t' s s' r r' e f (inl (a, b)) = inl (e ∙ a, f ∙ b)
  Found-as t t' s s' r r' e f (inr (info, rest, n, a, b, c)) = inr (info, rest, n, e ∙ a, f ∙ b, c)

  -- A node where the name does not end, or that has no information.
  node-passed :
      (rounds : ℕ) (info q s : List ℕ) (ks : Kids)
      → length info < 2 ^ 32
      → (not (nonempty s) && nonempty info) ≡ false
      → NoZero s
      → walk start (suc rounds) (uleb (length info) ++ (info ++ (kid_count ks ∷ q))) s ≡ (
          find_child (kid_count ks) q s >>= λ r. elim (r.0 == 0) [
            | true ↦ done none
            | false ↦ walk start rounds (drop r.0 start) r.1
          ])
  unfolding walk
  node-passed rounds info q s ks small h z = ground (
    arith,
    read_size-uleb (length info) (info ++ (kid_count ks ∷ q)) small,
    ends-here info s z ∙ h,
    drop-append info (kid_count ks ∷ q),
  )

  node-reached :
      (rounds : ℕ) (info q s : List ℕ) (ks : Kids)
      → length info < 2 ^ 32
      → (not (nonempty s) && nonempty info) ≡ true
      → NoZero s
      → walk start (suc rounds) (uleb (length info) ++ (info ++ (kid_count ks ∷ q))) s
        ≡ done (some (info ++ (kid_count ks ∷ q)))
  unfolding walk
  node-reached rounds info q s ks small h z = ground (
    arith,
    read_size-uleb (length info) (info ++ (kid_count ks ∷ q)) small,
    ends-here info s z ∙ h,
  )

  no-child :
      (rounds : ℕ) (q s : List ℕ) (ks : Kids)
      → find_child (kid_count ks) q s ≡ done (0, s)
      → (find_child (kid_count ks) q s >>= λ r. elim (r.0 == 0) [
        | true ↦ done none
        | false ↦ walk start rounds (drop r.0 start) r.1
      ])
        ≡ done none
  no-child rounds q s ks h = rw h refl

  taken-child :
      (rounds o : ℕ) (q s s' : List ℕ) (ks : Kids)
      → o ≢ 0
      → find_child (kid_count ks) q s ≡ done (o, s')
      → (find_child (kid_count ks) q s >>= λ r. elim (r.0 == 0) [
        | true ↦ done none
        | false ↦ walk start rounds (drop r.0 start) r.1
      ])
        ≡ walk start rounds (drop o start) s'
  taken-child rounds o q s s' ks nz h = rw h (ground (arith, nz))

  -- The walk stands at the offset `o`.
  walk-find :
      (rounds : ℕ) (t : Tree) (o : ℕ) (s : List ℕ)
      → Lays start t (drop o start)
      → NoZero s
      → length s < rounds
      → Found t s (walk start rounds (drop o start) s)
  unfolding Lays
  walk-find zero t o s l z h = absurd (omega arith)
  walk-find (suc rounds) (node info ks) o s (q, e, small, lks) z h =
      let from = ap (λ p. walk start (suc rounds) p s) e in
      elim (Bool-cases (not (nonempty s) && nonempty info)) [
        | inl here ↦ inr (
          info,
          kid_count ks ∷ q,
          o + length (uleb (length info)),
          find-here info s ks here,
          from ∙ node-reached rounds info q s ks small here z,
          drop-behind o (uleb (length info)) start _ e,
        )
        | inr on ↦ elim (Child-find start ks q s lks z) [
          | inl (a, b) ↦ inl (
            find-on info s ks on ∙ b,
            from ∙ node-passed rounds info q s ks small on z ∙ no-child rounds q s ks a,
          )
          | inr (o', s', t', a, nz, b, l, sh, z') ↦
              Found-as (node info ks) t' s s' _ _ (find-on info s ks on ∙ b)
                (from
                  ∙ node-passed rounds info q s ks small on z
                  ∙ taken-child rounds o' q s s' ks nz a)
                (walk-find rounds t' o' s' l z' (omega arith))
        ]
      ]

-- The search for a name without '\0' in an export trie that is laid out as the format has it ends. It
-- returns NULL where the tree has no information for the name, and else a pointer into the trie, to
-- the information that the tree has.
pub trie_walk_finds :
    (start : List ℕ) (t : Tree) (s : List ℕ)
    → Lays start t start
    → NoZero s
    → ((find t s ≡ none) × (trie_walk start s ≡ done none))
      ⊎ ((info : List ℕ) × (rest : List ℕ) × (n : ℕ) × (find t s ≡ some info)
          × (trie_walk start s ≡ done (some (info ++ rest)))
          × (drop n start ≡ info ++ rest))
unfolding trie_walk
trie_walk_finds start t s l z = walk-find start (suc (length s)) t 0 s l z (omega arith)
