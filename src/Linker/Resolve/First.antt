-- ===== src/Linker/Resolve/First.antt =====
-- `resolve` of core/lnk.cpp takes a symbol from the first image of the chain that has it.
use lib_system_and_linker.Prelude.{
  ℕ, ◌+◌, ◌%◌, ◌^◌, ◌<◌, ◌≡◌, ◌⊎◌, inl, inr, refl, ap, sym, true, Option, none, some, List, [], ◌∷◌,
  ◌++◌,
}
use lib_system_and_linker.Linker.Chain.{contains}
use lib_system_and_linker.Linker.Chain.Steps.{contains-cons, contains-head}
use lib_system_and_linker.Linker.Stream.{done, ◌>>=◌}
use lib_system_and_linker.Linker.Resolve.{Images, own_symbol, symbol_address, resolve}
use lib_system_and_linker.Linker.Resolve.Reexports.{
  Reaches, Lacks, nothing-contained, contained-cases, find_exported-Finds,
}

module _ (images : Images) (symbol : List ℕ) (own : ℕ → Option ℕ)
    (own-reads : (k : ℕ) → own_symbol (images.object k) symbol ≡ done (own k)) (rank : ℕ → ℕ)
    (lower : (i j : ℕ) → contains (images.re_exports i) j ≡ true → rank j < rank i) where
  abbrev pub LacksAll : List ℕ → Type 0
  LacksAll ims = (j : ℕ) → contains ims j ≡ true → Lacks images symbol own own-reads j

  -- `resolve` returns the count of unresolved symbols, with this one in it, where no image of the chain
  -- has the symbol, nor one that it re-exports; else the address in the first image of the chain that
  -- has it, or in an image that this one re-exports.
  abbrev pub Resolves : ℕ → List ℕ → ℕ → Type 0
  Resolves depth chain unresolved =
      (LacksAll chain
        × (resolve images symbol depth chain unresolved
            ≡ done (record {
              address = (unresolved + 1) % 2 ^ 32;
              found_image = none;
              unresolved_count = (unresolved + 1) % 2 ^ 32;
            })))
      ⊎ ((before : List ℕ) × (im : ℕ) × (after : List ℕ) × (k : ℕ) × (a : ℕ) × (chain
            ≡ before ++ (im ∷ after))
          × LacksAll before
          × Reaches images.re_exports k im
          × (own k ≡ some a)
          × (resolve images symbol depth chain unresolved ≡ (
              symbol_address (images.object k) a >>= λ address. done (record {
                address = address;
                found_image = some im;
                unresolved_count = unresolved;
              }))))

  -- Where each image answers whether it has the symbol, and a rank that falls along re-exports bounds
  -- the depth: `resolve` returns the count of unresolved symbols, with this one in it, where no image
  -- of the chain has the symbol, nor one that it re-exports. Else it returns the address of the symbol
  -- in the first image of the chain that has it, or in an image that this one re-exports.
  pub resolve_finds_first :
      (depth : ℕ) (chain : List ℕ) (unresolved : ℕ)
      → ((im : ℕ) → contains chain im ≡ true → rank im < depth)
      → Resolves depth chain unresolved
  unfolding resolve
  resolve_finds_first depth [] unresolved h =
      inl (λ j c. absurd (nothing-contained images symbol own own-reads j c), refl)
  resolve_finds_first depth (x ∷ chain) unresolved h =
      elim (find_exported-Finds images symbol own own-reads rank lower depth x
        (h x (contains-head chain x))) [
          | inr (k, a, r, o, e) ↦ inr (
            [],
            x,
            chain,
            k,
            a,
            refl,
            λ j c. absurd (nothing-contained images symbol own own-reads j c),
            r,
            o,
            rw e refl,
          )
          | inl (lacks, e) ↦
              elim (resolve_finds_first depth chain unresolved
                (λ im c. h im (contains-cons chain im x c))) [
                  | inl (all, f) ↦ inl (also x chain lacks all, rw e f)
                  | inr (before, im, after, k, a, p, all, r, o, f) ↦ inr (
                    x ∷ before,
                    im,
                    after,
                    k,
                    a,
                    ap (λ l. x ∷ l) p,
                    also x before lacks all,
                    r,
                    o,
                    rw e f,
                  )
                ]
        ]
    where
      also :
          (y : ℕ) (ims : List ℕ)
          → Lacks images symbol own own-reads y
          → LacksAll ims
          → LacksAll (y ∷ ims)
      also y ims lacks all j c = elim (contained-cases images symbol own own-reads y ims j c) [
        | inl p ↦ rw (sym p) lacks
        | inr q ↦ all j q
      ]
