-- ===== src/Linker/Resolve/Reexports.antt =====
-- The images that `findExportedSymbol` of core/lnk_macho.cpp looks into.
use lib_system_and_linker.Prelude.{
  Option-cases, ℕ, zero, suc, ◌<◌, ◌≡◌, ◌⊎◌, inl, inr, refl, sym, true, Option, none, some, List,
  [], ◌∷◌, arith,
}
use lib_system_and_linker.Linker.Chain.{contains}
use lib_system_and_linker.Linker.Chain.Steps.{contains-cons, contains-head}
use lib_system_and_linker.Linker.Stream.{Result, done}
use lib_system_and_linker.Linker.Resolve.{Images, Symbol, own_symbol, find_any, find_exported}

-- `k` is the image or one that it re-exports, at any depth.
pub data Reaches (re_exports : ℕ → List ℕ) (k : ℕ) : ℕ → Type 0 where
  here : Reaches re_exports k k
  through :
      {i : ℕ} (j : ℕ)
      → contains (re_exports i) j ≡ true
      → Reaches re_exports k j
      → Reaches re_exports k i

module _ (images : Images) (symbol : List ℕ) (own : ℕ → Option ℕ)
    (own-reads : (k : ℕ) → own_symbol (images.object k) symbol ≡ done (own k)) where
  -- No image within reach has the symbol.
  abbrev pub Lacks : ℕ → Type 0
  Lacks i = (k : ℕ) → Reaches images.re_exports k i → own k ≡ none

  -- What a search from the image `i` returns: nothing, where no image within reach has the symbol, or
  -- the symbol of one that has.
  abbrev pub Finds : ℕ → Result (Option Symbol) → Type 0
  Finds i r =
      (Lacks i × (r ≡ done none))
      ⊎ ((k : ℕ) × (a : ℕ) × Reaches images.re_exports k i
          × (own k ≡ some a)
          × (r ≡ done (some (record { addr = a; in_image = k }))))

  pub contained-cases :
      (x : ℕ) (xs : List ℕ) (j : ℕ) → contains (x ∷ xs) j ≡ true → (x ≡ j) ⊎ (contains xs j ≡ true)
  unfolding contains
  contained-cases x xs j h = ground (arith, h)

  pub nothing-contained : (j : ℕ) → contains [] j ≡ true → ⊥
  unfolding contains
  nothing-contained j h = cc

  Lacks-all :
      (i : ℕ)
      → own i ≡ none
      → ((j : ℕ) → contains (images.re_exports i) j ≡ true → Lacks j)
      → Lacks i
  Lacks-all i none_here below k here = none_here
  Lacks-all i none_here below k (through j h r) = below j h k r

  any-Finds :
      (find : ℕ → Result (Option Symbol)) (ims : List ℕ)
      → ((j : ℕ) → contains ims j ≡ true → Finds j (find j))
      → (((j : ℕ) → contains ims j ≡ true → Lacks j) × (find_any find ims ≡ done none))
        ⊎ ((j : ℕ) × (contains ims j ≡ true)
            × ((k : ℕ) × (a : ℕ) × Reaches images.re_exports k j
                × (own k ≡ some a)
                × (find_any find ims ≡ done (some (record { addr = a; in_image = k })))))
  unfolding find_any
  any-Finds find [] h = inl (λ j c. absurd (nothing-contained j c), refl)
  any-Finds find (x ∷ xs) h = elim (h x (contains-head xs x)) [
    | inr (k, a, r, o, e) ↦ inr (x, contains-head xs x, (k, a, r, o, rw e refl))
    | inl (lacks, e) ↦ elim (any-Finds find xs (λ j c. h j (contains-cons xs j x c))) [
      | inl (all, f) ↦ inl (
        λ j c. elim (contained-cases x xs j c) [ inl p ↦ rw (sym p) lacks | inr q ↦ all j q ],
        rw e f,
      )
      | inr (j, c, (k, a, r, o, f)) ↦ inr (j, contains-cons xs j x c, (k, a, r, o, rw e f))
    ]
  ]

  -- A rank that falls along re-exports bounds the depth.
  pub find_exported-Finds :
      (rank : ℕ → ℕ)
      → ((i j : ℕ) → contains (images.re_exports i) j ≡ true → rank j < rank i)
      → (depth im : ℕ) → rank im < depth
      → Finds im (find_exported images symbol depth im)
  unfolding find_exported
  find_exported-Finds rank lower zero im h = absurd (omega arith)
  find_exported-Finds rank lower (suc depth) im h = elim (Option-cases (own im)) [
    | inr (a, e) ↦ inr (im, a, here, e, rw (own-reads im, e) refl)
    | inl e ↦
        elim (any-Finds (find_exported images symbol depth) (images.re_exports im)
          (λ j c. find_exported-Finds rank lower depth j (omega (arith, lower im j c)))) [
            | inl (all, f) ↦ inl (Lacks-all im e all, rw (own-reads im, e) f)
            | inr (j, c, (k, a, r, o, f)) ↦ inr (k, a, through j c r, o, rw (own-reads im, e) f)
          ]
  ]
