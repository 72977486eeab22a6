-- ===== src/Linker/Trie.antt =====
-- `trie_walk` of core/lnk_util.cpp: the search for a symbol in the export trie of an image. A pointer
-- into the trie is the list of the bytes from there up to `end`; a symbol's name is the list of its
-- characters before the '\0'.
pub mod Tree
mod Edges
mod Children
pub mod Walk
pub mod Runs
use lib_system_and_linker.Prelude.{
  ℕ, zero, suc, ◌+◌, ◌==◌, leb, not, ◌&&◌, if◌then◌else◌, Bool, true, false, Option, none, some,
  List, [], ◌∷◌, length, drop,
}
use lib_system_and_linker.Linker.Stream.{Result, done, halts, spins, strays, ◌>>=◌, read_uleb128}

-- `*p++`
abbrev pub next : List ℕ → Result (ℕ × List ℕ)
next [] = strays
next (b ∷ p) = done (b, p)

-- `*ss` and `++ss`
abbrev pub first_char : List ℕ → ℕ
first_char [] = 0
first_char (c ∷ s) = c

abbrev pub rest_chars : List ℕ → List ℕ
rest_chars [] = []
rest_chars (c ∷ s) = s

abbrev pub is_end : List ℕ → Bool
is_end s = first_char s == 0

-- `terminalSize`, and the bytes behind it.
unfoldable pub read_size : List ℕ → Result (ℕ × List ℕ)
unfolding read_uleb128
read_size [] = strays
read_size (b ∷ p) = if leb 128 b then read_uleb128 (b ∷ p) else done (b, p)

-- The scan of an edge: whether it is the wrong one, `ss`, and the bytes behind its '\0'.
unfoldable pub scan_edge : List ℕ → Bool → List ℕ → Result (Bool × List ℕ × List ℕ)
scan_edge [] wrong ss = strays
scan_edge (c ∷ p) wrong ss = elim (c == 0) [
  | true ↦ done (wrong, ss, p)
  | false ↦ elim wrong [
    | true ↦ scan_edge p true ss
    | false ↦ scan_edge p (not (c == first_char ss)) (rest_chars ss)
  ]
]

unfoldable pub skip_uleb : List ℕ → Result (List ℕ)
skip_uleb [] = strays
skip_uleb (b ∷ p) = if leb 128 b then skip_uleb p else done p

-- The loop over the children: `nodeOffset`, and `s` behind it.
unfoldable pub find_child : ℕ → List ℕ → List ℕ → Result (ℕ × List ℕ)
unfolding scan_edge skip_uleb read_uleb128
find_child zero p s = done (0, s)
find_child (suc remaining) p s = scan_edge p false s >>= λ r. elim r.0 [
  | true ↦ skip_uleb r.2 >>= λ p'. find_child remaining p' s
  | false ↦ read_uleb128 r.2 >>= λ q. done (q.0, r.1)
]

-- The loop over the nodes, with a number of rounds.
unfoldable pub walk : List ℕ → ℕ → List ℕ → List ℕ → Result (Option (List ℕ))
unfolding read_size find_child
walk start zero p s = spins
walk start (suc rounds) p s = do
  (size, p') ← read_size p
  elim (is_end s && not (size == 0)) [
    | true ↦ done (some p')
    | false ↦ do
      (count, kids) ← next (drop size p')
      (offset, s') ← find_child count kids s
      elim (offset == 0) [ true ↦ done none | false ↦ walk start rounds (drop offset start) s' ]
  ]

-- A round follows an edge, of one character at least in a trie that has no empty edge.
unfoldable pub trie_walk : List ℕ → List ℕ → Result (Option (List ℕ))
unfolding walk
trie_walk start s = walk start (suc (length s)) start s
