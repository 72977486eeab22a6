-- ===== src/Linker/Trie/Edges.antt =====
-- The steps of `trie_walk` of core/lnk_util.cpp on the parts of a node.
use lib_system_and_linker.Prelude.{
  ◌+◌, sym, ℕ, zero, suc, ◌/◌, ◌^◌, ◌<◌, ◌≤◌, ◌≡◌, ◌⊎◌, ◌∙◌, inl, inr, refl, ap, ltb, true, false,
  Bool-cases, none, some, List, [], ◌∷◌, ◌++◌, length, drop, arith, ℕ_discrete,
}
use native.Mathlib.Nat.{zero-add, suc-add}
use lib_system_and_linker.Linker.Stream.{done}
use lib_system_and_linker.Linker.Stream.Encode.{uleb_bytes, uleb}
use lib_system_and_linker.Linker.Stream.RoundTrip.{read_uleb128-small}
use lib_system_and_linker.Linker.Trie.{read_size, scan_edge, skip_uleb}
use lib_system_and_linker.Linker.Trie.Tree.{strip, NoZero, nonempty}

pub drop-append : (xs ys : List ℕ) → drop (length xs) (xs ++ ys) ≡ ys
drop-append [] ys = refl
drop-append (x ∷ xs) ys = drop-append xs ys

drop-nothing : (n : ℕ) → drop {A = ℕ} n [] ≡ []
drop-nothing zero = refl
drop-nothing (suc n) = refl

drop-drop : (m n : ℕ) (xs : List ℕ) → drop m (drop n xs) ≡ drop (n + m) xs
drop-drop m zero xs = rw zero-add
drop-drop m (suc n) [] = drop-nothing m ∙ sym (drop-nothing (suc n + m))
drop-drop m (suc n) (x ∷ xs) = rw suc-add (drop-drop m n xs)

-- What stands behind `xs` at the offset `n`.
pub drop-behind :
    (n : ℕ) (xs all ys : List ℕ) → drop n all ≡ xs ++ ys → drop (n + length xs) all ≡ ys
drop-behind n xs all ys h =
    sym (drop-drop (length xs) n all) ∙ ap (drop (length xs)) h ∙ drop-append xs ys

skip_bytes : (k n : ℕ) (rest : List ℕ) → skip_uleb (uleb_bytes k n ++ rest) ≡ done rest
unfolding skip_uleb uleb_bytes
skip_bytes zero n rest = ground arith
skip_bytes (suc k) n rest = elim (Bool-cases (ltb n 128)) [
  | inl short ↦ rw short (ground arith)
  | inr long ↦ rw long (ground (arith, skip_bytes k (n / 128) rest))
]

pub skip_uleb-uleb : (n : ℕ) (rest : List ℕ) → skip_uleb (uleb n ++ rest) ≡ done rest
unfolding uleb
skip_uleb-uleb n rest = skip_bytes 9 n rest

pub read_size-uleb :
    (n : ℕ) (rest : List ℕ) → n < 2 ^ 32 → read_size (uleb n ++ rest) ≡ done (n, rest)
unfolding read_size uleb uleb_bytes
read_size-uleb n rest h = elim (Bool-cases (ltb n 128)) [
  | inl short ↦ rw short (ground arith)
  | inr long ↦ let whole = read_uleb128-small n rest h in rw long (ground (arith, whole))
]

scan_wrong :
    (edge p ss : List ℕ) → NoZero edge → scan_edge (edge ++ (0 ∷ p)) true ss ≡ done (true, ss, p)
unfolding scan_edge
scan_wrong [] p ss z = refl
scan_wrong (c ∷ edge) p ss z = ground (arith, scan_wrong edge p ss z.1)

-- A scan tells whether the name begins with the edge.
pub scan-strip :
    (edge p s : List ℕ)
    → NoZero edge
    → ((strip edge s ≡ none)
        × ((ss : List ℕ) × (scan_edge (edge ++ (0 ∷ p)) false s ≡ done (true, ss, p))))
      ⊎ ((s' : List ℕ) × (strip edge s ≡ some s')
          × (scan_edge (edge ++ (0 ∷ p)) false s ≡ done (false, s', p)))
unfolding scan_edge strip
scan-strip [] p s z = inr (s, refl, refl)
scan-strip (c ∷ edge) p [] z = inl (refl, ([], ground (arith, scan_wrong edge p [] z.1)))
scan-strip (c ∷ edge) p (d ∷ s) z = elim (ℕ_discrete c d) [
  | yes e ↦ elim (scan-strip edge p s z.1) [
    | inl (f, (ss, g)) ↦ inl (ground (arith, f), (ss, ground (arith, g)))
    | inr (s', f, g) ↦ inr (s', ground (arith, f), ground (arith, g))
  ]
  | no n ↦ inl (ground arith, (s, ground (arith, scan_wrong edge p s z.1)))
]

pub strip-NoZero : (edge s s' : List ℕ) → NoZero s → strip edge s ≡ some s' → NoZero s'
unfolding strip
strip-NoZero [] s s' z h = let same : s ≡ s' = cc in rw (sym same) z
strip-NoZero (c ∷ edge) [] s' z h = cc
strip-NoZero (c ∷ edge) (d ∷ s) s' z h = strip-NoZero edge s s' z.1 (ground arith)

strip-leb : (edge s s' : List ℕ) → strip edge s ≡ some s' → length s' ≤ length s
unfolding strip
strip-leb [] s s' h = let same : s ≡ s' = cc in rw same (omega arith)
strip-leb (c ∷ edge) [] s' h = cc
strip-leb (c ∷ edge) (d ∷ s) s' h = omega (arith, strip-leb edge s s' (ground arith))

pub strip-shorter :
    (edge s s' : List ℕ) → nonempty edge ≡ true → strip edge s ≡ some s' → length s' < length s
unfolding strip
strip-shorter [] s s' z h = cc
strip-shorter (c ∷ edge) [] s' z h = cc
strip-shorter (c ∷ edge) (d ∷ s) s' z h = omega (arith, strip-leb edge s s' (ground arith))
