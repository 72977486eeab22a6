-- ===== src/Linker/Trie/Children.antt =====
-- The loop over the children of a node in `trie_walk` of core/lnk_util.cpp.
use lib_system_and_linker.Prelude.{
  ℕ, suc, ◌^◌, ◌<◌, ◌≡◌, ◌≢◌, ◌⊎◌, ◌∙◌, inl, inr, refl, true, false, none, some, List, ◌++◌, length,
  drop, arith,
}
use lib_system_and_linker.Linker.Stream.{done}
use lib_system_and_linker.Linker.Stream.Encode.{uleb}
use lib_system_and_linker.Linker.Stream.RoundTrip.{read_uleb128-small}
use lib_system_and_linker.Linker.Trie.{scan_edge, find_child}
use lib_system_and_linker.Linker.Trie.Tree.{
  Tree, Kids, nil, kid, strip, NoZero, find, find_in, kid_count, Lays, LaysKids,
}
use lib_system_and_linker.Linker.Trie.Edges.{
  skip_uleb-uleb, scan-strip, strip-NoZero, strip-shorter,
}

child-skipped :
    (n offset : ℕ) (q q' s ss : List ℕ)
    → scan_edge q false s ≡ done (true, ss, uleb offset ++ q')
    → find_child (suc n) q s ≡ find_child n q' s
unfolding find_child
child-skipped n offset q q' s ss h = rw (h, skip_uleb-uleb offset q') refl

child-taken :
    (n offset : ℕ) (q q' s s' : List ℕ)
    → offset < 2 ^ 32
    → scan_edge q false s ≡ done (false, s', uleb offset ++ q')
    → find_child (suc n) q s ≡ done (offset, s')
unfolding find_child
child-taken n offset q q' s s' small h = rw (h, read_uleb128-small offset q' small) refl

edge-missed :
    (edge s : List ℕ) (t : Tree) (ks : Kids)
    → strip edge s ≡ none
    → find_in (kid edge t ks) s ≡ find_in ks s
unfolding find_in
edge-missed edge s t ks h = ground (arith, h)

edge-followed :
    (edge s s' : List ℕ) (t : Tree) (ks : Kids)
    → strip edge s ≡ some s'
    → find_in (kid edge t ks) s ≡ find t s'
unfolding find_in
edge-followed edge s s' t ks h = ground (arith, h)

module _ (start : List ℕ) where
  -- No child has the next characters; or the first one that has them, with its offset.
  abbrev pub Child : Kids → List ℕ → List ℕ → Type 0
  Child ks q s =
      ((find_child (kid_count ks) q s ≡ done (0, s)) × (find_in ks s ≡ none))
      ⊎ ((offset : ℕ) × (s' : List ℕ) × (t : Tree) × (find_child (kid_count ks) q s
            ≡ done (offset, s'))
          × (offset ≢ 0)
          × (find_in ks s ≡ find t s')
          × Lays start t (drop offset start)
          × (length s' < length s)
          × NoZero s')

  Child-later :
      (edge s q q' : List ℕ) (t : Tree) (ks : Kids)
      → find_child (suc (kid_count ks)) q s ≡ find_child (kid_count ks) q' s
      → find_in (kid edge t ks) s ≡ find_in ks s
      → Child ks q' s
      → Child (kid edge t ks) q s
  unfolding kid_count
  Child-later edge s q q' t ks e f (inl (a, b)) = inl (e ∙ a, f ∙ b)
  Child-later edge s q q' t ks e f (inr (o, s', t', a, nz, b, l, sh, z)) =
      inr (o, s', t', e ∙ a, nz, f ∙ b, l, sh, z)

  pub Child-find : (ks : Kids) (q s : List ℕ) → LaysKids start ks q → NoZero s → Child ks q s
  unfolding find_child find_in kid_count LaysKids
  Child-find nil q s l z = inl (refl, refl)
  Child-find (kid edge t ks) q s (offset, q', e, ne, ze, nz, small, lt, lks) z =
      elim (scan-strip edge (uleb offset ++ q') s ze) [
        | inl (f, (ss, g)) ↦
            Child-later edge s q q' t ks (child-skipped (kid_count ks) offset q q' s ss (rw e g))
              (edge-missed edge s t ks f) (Child-find ks q' s lks z)
        | inr (s', f, g) ↦ inr (
          offset,
          s',
          t,
          child-taken (kid_count ks) offset q q' s s' small (rw e g),
          nz,
          edge-followed edge s s' t ks f,
          lt,
          strip-shorter edge s s' ne f,
          strip-NoZero edge s s' z f,
        )
      ]
