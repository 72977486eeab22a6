-- ===== src/Linker/Export/Address.antt =====
-- The address of a symbol that the export trie has, as core/lnk_macho.cpp computes it.
use lib_system_and_linker.Prelude.{
  inr, inl, ◌/◌, Bool-cases, ℕ, zero, suc, ◌+◌, ◌-◌, ◌%◌, ◌^◌, ◌<◌, ◌≡◌, ◌≢◌, ◌∙◌, inl, inr, refl,
  sym, ap, ltb, false, some, List, [], ◌∷◌, ◌++◌, length, drop, arith,
}
use lib_system_and_linker.Linker.Stream.{done, read_uleb128}
use lib_system_and_linker.Linker.Stream.Encode.{uleb, uleb_bytes}
use lib_system_and_linker.Linker.Stream.RoundTrip.{read_uleb128-uleb, read_uleb128-small}
use lib_system_and_linker.Linker.Trie.{trie_walk}
use lib_system_and_linker.Linker.Trie.Tree.{Tree, NoZero, find, Lays}
use lib_system_and_linker.Linker.Trie.Walk.{trie_walk_finds}
use mathlib.Core.List.{append_assoc}
use lib_system_and_linker.Linker.Export.{
  other, Image, find_exported_symbol, exported_symbol_address,
}

length-drop : (n : ℕ) (xs : List ℕ) → length (drop n xs) ≡ length xs - n
length-drop zero xs = omega arith
length-drop (suc n) [] = omega arith
length-drop (suc n) (x ∷ xs) = omega (arith, length-drop n xs)

-- A part of the trie that is not empty stands at one offset.
drop-place :
    (n : ℕ) (xs : List ℕ) (y : ℕ) (ys : List ℕ)
    → drop n xs ≡ y ∷ ys
    → (length xs - length (drop n xs) ≡ n) × (n < length xs)
drop-place n xs y ys h =
    let long : length (drop n xs) ≡ suc (length ys) = ap (length {A = ℕ}) h in
    (omega (arith, length-drop n xs, long), omega (arith, length-drop n xs, long))

uleb-nonempty : (n : ℕ) (rest : List ℕ) → (b : ℕ) × (bs : List ℕ) × (uleb n ++ rest ≡ b ∷ bs)
unfolding uleb uleb_bytes
uleb-nonempty n rest = elim (Bool-cases (ltb n 128)) [
  | inl short ↦ (n, rest, rw short refl)
  | inr long ↦ (n % 128 + 128, uleb_bytes 8 (n / 128) ++ rest, rw long refl)
]

module _ (im : Image) where
  found-at :
      (symbol node : List ℕ) (flags n : ℕ) (rest : List ℕ)
      → trie_walk im.trie symbol ≡ done (some node)
      → node ≡ uleb flags ++ rest
      → drop n im.trie ≡ node
      → flags < 2 ^ 32
      → im.is_reexport flags ≡ false
      → (find_exported_symbol im symbol ≡ done (some (im.start + n))) × (n < length im.trie)
  unfolding find_exported_symbol
  found-at symbol node flags n rest w e d small own =
      let (b, bs, whole) = uleb-nonempty flags rest in
      let (place, low) = drop-place n im.trie b bs (d ∙ e ∙ whole) in
      let back : length im.trie - length node ≡ n =
        ap (λ p. length im.trie - length p) (sym d) ∙ place in
      let read : read_uleb128 node ≡ done (flags, rest) =
        ap read_uleb128 e ∙ read_uleb128-small flags rest small in
      (ground (arith, w, read, own, back, low), low)

  address-at :
      (n flags value : ℕ) (rest : List ℕ)
      → drop n im.trie ≡ uleb flags ++ (uleb value ++ rest)
      → n < length im.trie
      → flags < 2 ^ 32
      → value < 2 ^ 64
      → im.kind flags ≢ other
      → im.has_resolver flags ≡ false
      → exported_symbol_address im (im.start + n) ≡ done ((value % 2 ^ 32 + im.header) % 2 ^ 32)
  unfolding exported_symbol_address
  address-at n flags value rest d low small wide known plain =
      let same : im.start + n - im.start ≡ n = omega arith in
      let read : read_uleb128 (drop n im.trie) ≡ done (flags, uleb value ++ rest) =
        ap read_uleb128 d ∙ read_uleb128-small flags (uleb value ++ rest) small in
      ground (arith, same, read, known, plain, low, read_uleb128-uleb value rest wide)

  -- A symbol whose information in the trie's tree is flags of a regular or thread-local symbol, not
  -- re-exported and without a resolver, and a value of at most 64 bits, is found; and its address is
  -- the header's plus the value, modulo 2^32.
  pub exported_symbol_found :
      (t : Tree) (symbol more : List ℕ) (flags value : ℕ)
      → Lays im.trie t im.trie
      → NoZero symbol
      → find t symbol ≡ some (uleb flags ++ (uleb value ++ more))
      → flags < 2 ^ 32
      → value < 2 ^ 64
      → im.is_reexport flags ≡ false
      → im.kind flags ≢ other
      → im.has_resolver flags ≡ false
      → (addr : ℕ) × (find_exported_symbol im symbol ≡ done (some addr))
        × (exported_symbol_address im addr ≡ done ((value % 2 ^ 32 + im.header) % 2 ^ 32))
  exported_symbol_found t symbol more flags value l z f small wide own known plain =
      elim (trie_walk_finds im.trie t symbol l z) [
        | inl (missing, w) ↦ cc
        | inr (info, rest, n, g, w, d) ↦
            let same : info ≡ uleb flags ++ (uleb value ++ more) = cc in
            let parts : info ++ rest ≡ uleb flags ++ (uleb value ++ (more ++ rest)) =
              ap (λ p. p ++ rest) same
              ∙ append_assoc (uleb flags) (uleb value ++ more) rest
              ∙ ap (λ p. uleb flags ++ p) (append_assoc (uleb value) more rest) in
            let (found, low) = found-at symbol (info ++ rest) flags n _ w parts d small own in
            (
              im.start + n,
              found,
              address-at n flags value (more ++ rest) (d ∙ parts) low small wide known plain,
            )
      ]
