-- ===== src/Linker/Lookup/Toc.antt =====
-- What `binary_search_toc` of core/lnk_util.cpp finds.
use lib_system_and_linker.Prelude.{
  refl, ◌^◌, ◌||◌, ◌==◌, ltb, false, ℕ, zero, suc, ◌+◌, ◌-◌, ◌/◌, ◌<◌, ◌≤◌, ◌≡◌, inl, inr, some,
  arith, leb, if◌then◌else◌,
}
use lib_system_and_linker.Linker.Stream.{done}
use lib_system_and_linker.Linker.Lookup.{Order, less, equal, greater, toc_search, binary_search_toc}
use lib_system_and_linker.Linker.Lookup.Search.{order_cases, after, before}

module _ (compare_key : ℕ → Order) where
  toc-equal :
      (rounds low high mid : ℕ)
      → low < high
      → compare_key mid ≡ equal
      → toc_search compare_key (suc rounds) low high mid ≡ some mid
  unfolding toc_search
  toc-equal rounds low high mid h k = ground (arith, k)

  toc-greater :
      (rounds low high mid : ℕ)
      → low < high
      → compare_key mid ≡ greater
      → toc_search compare_key (suc rounds) low high mid
        ≡ toc_search compare_key rounds (mid + 1) high ((mid + 1 + high - 1) / 2)
  unfolding toc_search
  toc-greater rounds low high mid h k = ground (arith, k)

  toc-less :
      (rounds low high mid : ℕ)
      → low < high
      → compare_key mid ≡ less
      → toc_search compare_key (suc rounds) low high mid
        ≡ toc_search compare_key rounds low mid ((low + mid - 1) / 2)
  unfolding toc_search
  toc-less rounds low high mid h k = ground (arith, k)

  module _ (symbol_count : ℕ)
      (below : (j k : ℕ)
        → j ≤ k
        → k < symbol_count
        → compare_key k ≡ greater
        → compare_key j ≡ greater)
      (above : (j k : ℕ)
        → j ≤ k
        → k < symbol_count
        → compare_key j ≡ less
        → compare_key k ≡ less) where
    toc-finds :
        (rounds low high mid i : ℕ)
        → high - low < rounds
        → high ≤ symbol_count
        → low ≤ mid
        → mid < high
        → low ≤ i
        → i < high
        → compare_key i ≡ equal
        → (j : ℕ) × (toc_search compare_key rounds low high mid ≡ some j)
          × (j < symbol_count)
          × (compare_key j ≡ equal)
    toc-finds zero low high mid i enough fits from to lower upper here = absurd (omega arith)
    toc-finds (suc rounds) low high mid i enough fits from to lower upper here =
        elim (order_cases (compare_key mid)) [
          | inr (inl hit) ↦ (mid, toc-equal rounds low high mid (omega arith) hit, omega arith, hit)
          | inr (inr up) ↦
              let up_there : mid < i =
                after compare_key symbol_count below above i mid (omega arith) here up in
              let (j, went, bound, r) =
                toc-finds rounds (mid + 1) high ((mid + 1 + high - 1) / 2) i (omega arith) fits
                  (omega arith) (omega arith) (omega arith) upper here in
              (j, rw (toc-greater rounds low high mid (omega arith) up) went, bound, r)
          | inl down ↦
              let down_there : i < mid =
                before compare_key symbol_count below above i mid (omega arith) here down in
              let (j, went, bound, r) =
                toc-finds rounds low mid ((low + mid - 1) / 2) i (omega arith) (omega arith)
                  (omega arith) (omega arith) lower down_there here in
              (j, rw (toc-less rounds low high mid (omega arith) down) went, bound, r)
        ]

    -- Whatever hint below 2^31 there is: where the table of contents has at most 2^30 entries and is
    -- sorted, and some entry's symbol has the key's name, `binary_search_toc` returns an entry of the table
    -- whose symbol has it.
    pub binary_search_toc_finds :
        (hint_index i : ℕ)
        → symbol_count ≤ 2 ^ 30
        → hint_index < 2 ^ 31
        → i < symbol_count
        → compare_key i ≡ equal
        → (j : ℕ) × (binary_search_toc compare_key symbol_count hint_index ≡ done (some j))
          × (j < symbol_count)
          × (compare_key j ≡ equal)
    unfolding binary_search_toc
    binary_search_toc_finds hint_index i few small h k =
        let (j, e, b, r) =
          toc-finds (suc symbol_count) 0 symbol_count
            (if leb symbol_count hint_index then symbol_count / 2 else hint_index) i (omega arith)
            (omega arith) (omega arith) (ground arith) (omega arith) h k in
        let rounds : (symbol_count == 0 || ltb (2 ^ 31) symbol_count) ≡ false = ground arith in
        let inside : (leb (2 ^ 31) hint_index || ltb (2 ^ 30) symbol_count) ≡ false =
          ground arith in
        (j, rw (rounds, inside, e) refl, b, r)
