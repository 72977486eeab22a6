-- ===== src/Linker/Lookup/Search.antt =====
-- What `binary_search` of core/lnk_util.cpp finds.
use lib_system_and_linker.Prelude.{
  ℕ, zero, suc, ◌+◌, ◌-◌, ◌/◌, ◌<◌, ◌≤◌, ◌≡◌, ◌≢◌, ◌⊎◌, inl, inr, refl, some, arith,
}
use lib_system_and_linker.Linker.Lookup.{Order, less, equal, greater, search, binary_search}

pub order_cases : (o : Order) → (o ≡ less) ⊎ ((o ≡ equal) ⊎ (o ≡ greater))
order_cases less = inl refl
order_cases equal = inr (inl refl)
order_cases greater = inr (inr refl)

le_or_lt : (a b : ℕ) → (a ≤ b) ⊎ (b < a)
le_or_lt a b = ground arith

module _ (compare_key : ℕ → Order) where
  search-equal :
      (rounds base n : ℕ)
      → n ≢ 0
      → compare_key (base + n / 2) ≡ equal
      → search compare_key (suc rounds) base n ≡ some (base + n / 2)
  unfolding search
  search-equal rounds base n h k = ground (arith, h, k)

  search-greater :
      (rounds base n : ℕ)
      → n ≢ 0
      → compare_key (base + n / 2) ≡ greater
      → search compare_key (suc rounds) base n
        ≡ search compare_key rounds (base + n / 2 + 1) ((n - 1) / 2)
  unfolding search
  search-greater rounds base n h k = ground (arith, h, k)

  search-less :
      (rounds base n : ℕ)
      → n ≢ 0
      → compare_key (base + n / 2) ≡ less
      → search compare_key (suc rounds) base n ≡ search compare_key rounds base (n / 2)
  unfolding search
  search-less rounds base n h k = ground (arith, h, k)

  module _ (symbol_count : ℕ)
      (below : (j k : ℕ)
        → j ≤ k
        → k < symbol_count
        → compare_key k ≡ greater
        → compare_key j ≡ greater)
      (above : (j k : ℕ)
        → j ≤ k
        → k < symbol_count
        → compare_key j ≡ less
        → compare_key k ≡ less) where
    pub after :
        (i p : ℕ) → p < symbol_count → compare_key i ≡ equal → compare_key p ≡ greater → p < i
    after i p h here up = elim (le_or_lt i p) [
      | inl le ↦ absurd (cc (below i p le h up))
      | inr lt ↦ lt
    ]

    pub before : (i p : ℕ) → i < symbol_count → compare_key i ≡ equal → compare_key p ≡ less → i < p
    before i p h here down = elim (le_or_lt p i) [
      | inl le ↦ absurd (cc (above p i le h down))
      | inr lt ↦ lt
    ]

    search-finds :
        (rounds base n i : ℕ)
        → n < rounds
        → base + n ≤ symbol_count
        → base ≤ i
        → i < base + n
        → compare_key i ≡ equal
        → (j : ℕ) × (search compare_key rounds base n ≡ some j)
          × (j < symbol_count)
          × (compare_key j ≡ equal)
    search-finds zero base n i enough fits low high here = absurd (omega arith)
    search-finds (suc rounds) base n i enough fits low high here =
        elim (order_cases (compare_key (base + n / 2))) [
          | inr (inl hit) ↦
              (base + n / 2, search-equal rounds base n some_left hit, omega arith, hit)
          | inr (inr up) ↦
              let up_there : base + n / 2 < i =
                after i (base + n / 2) (omega (arith, some_left)) here up in
              let (j, went, bound, r) =
                search-finds rounds (base + n / 2 + 1) ((n - 1) / 2) i (omega arith) (omega arith)
                  (omega arith) (omega arith) here in
              (j, rw (search-greater rounds base n some_left up) went, bound, r)
          | inl down ↦
              let down_there : i < base + n / 2 = before i (base + n / 2) (omega arith) here down in
              let (j, went, bound, r) =
                search-finds rounds base (n / 2) i (omega arith) (omega arith) low down_there
                  here in
              (j, rw (search-less rounds base n some_left down) went, bound, r)
        ]
      where
        some_left : n ≢ 0
        some_left e = omega arith

    -- Where the table is sorted, so that the key is greater than the names before one that it is
    -- greater than and less than those behind one that it is less than, and some symbol has the key's
    -- name, `binary_search` returns a symbol of the table with that name.
    pub binary_search_finds :
        (i : ℕ)
        → i < symbol_count
        → compare_key i ≡ equal
        → (j : ℕ) × (binary_search compare_key symbol_count ≡ some j)
          × (j < symbol_count)
          × (compare_key j ≡ equal)
    unfolding binary_search
    binary_search_finds i h k =
        search-finds (suc symbol_count) 0 symbol_count i (omega arith) (omega arith) (omega arith)
          (omega (arith, h)) k
