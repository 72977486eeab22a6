-- ===== src/Ctypes/Search.antt =====
-- The search of core/ctypes_non_inline.c through ranges of runes that are in order.
use lib_system_and_linker.Prelude.{
  ℕ, zero, suc, ◌+◌, ◌-◌, ◌/◌, ◌≤◌, ◌<◌, ◌≡◌, ◌⊎◌, inl, inr, refl, ◌==◌, leb, ltb, bit_and, true,
  false, Bool-cases, some, arith,
}
use lib_system_and_linker.Ctypes.{
  RuneEntry, RuneLocale, in_entry, entry_type, search_ranges, is_negative, isascii, runetype_l,
  maskrune, to_bool, istype,
}

-- The ranges below `n` are in order, without common runes.
abbrev pub InOrder : (ℕ → RuneEntry) → ℕ → Type 0
InOrder ranges n =
    ((i : ℕ) → i < n → (ranges i).min ≤ (ranges i).max)
    × ((i j : ℕ) → i < j → j < n → (ranges i).max < (ranges j).min)

-- The type of the range that has the rune, or 0 where none has it.
abbrev pub TypeOf : (ℕ → RuneEntry) → ℕ → ℕ → ℕ → Type 0
TypeOf ranges n c t =
    ((i : ℕ) × (i < n) × (in_entry c (ranges i) ≡ true) × (t ≡ entry_type c (ranges i)))
    ⊎ ((t ≡ 0) × ((i : ℕ) → i < n → in_entry c (ranges i) ≡ false))

module _ (ranges : ℕ → RuneEntry) (n c : ℕ) (ordered : InOrder ranges n) where
  -- What is left of the ranges before `base` and from `base + lim` on.
  abbrev Outside : ℕ → ℕ → Type 0
  Outside base lim =
      (base + lim ≤ n)
      × ((i : ℕ) → i < base → (ranges i).max < c)
      × ((i : ℕ) → base + lim ≤ i → i < n → c < (ranges i).min)

  below-max : (i j : ℕ) → i ≤ j → j < n → (ranges j).max < c → (ranges i).max < c
  below-max i j le lt h = elim (Bool-cases (i == j)) [
    | inl y ↦ (let same : i ≡ j = ground (arith, y) in rw same h)
    | inr k ↦ omega (arith, ordered.1 i j (ground (arith, k)) lt, ordered.0 j lt)
  ]

  above-min : (i j : ℕ) → i ≤ j → j < n → c < (ranges i).min → c < (ranges j).min
  above-min i j le lt h = elim (Bool-cases (i == j)) [
    | inl y ↦ (let same : i ≡ j = ground (arith, y) in rw (← same) h)
    | inr k ↦ omega (arith, ordered.1 i j (ground (arith, k)) lt, ordered.0 i (omega arith))
  ]

  -- No range is left.
  nowhere :
      (i lim base : ℕ)
      → lim ≡ 0
      → base + lim ≤ n
      → (i < base → (ranges i).max < c)
      → (base + lim ≤ i → c < (ranges i).min)
      → in_entry c (ranges i) ≡ false
  nowhere i lim base none_left fits below above = elim (Bool-cases (ltb i base)) [
    | inl y ↦ (let out = below (ground (arith, y)) in ground (arith, out))
    | inr k ↦ (let out = above (ground (arith, k, none_left)) in ground (arith, out))
  ]

  search_ranges-TypeOf :
      (rounds base lim : ℕ)
      → lim < rounds
      → Outside base lim
      → (t : ℕ) × (search_ranges ranges c rounds base lim ≡ some t) × TypeOf ranges n c t
  unfolding search_ranges
  search_ranges-TypeOf zero base lim fuel out = absurd (omega arith)
  search_ranges-TypeOf (suc rounds) base lim fuel (fits, below, above) =
      elim (Bool-cases (lim == 0)) [
        | inl y ↦ (
          0,
          rw y refl,
          inr (
            refl,
            λ i lt. nowhere i lim base (ground (arith, y)) fits (below i) (λ a. above i a lt),
          ),
        )
        | inr k ↦
            let pos : 0 < lim = ground (arith, k) in
            elim (Bool-cases (in_entry c (ranges (base + lim / 2)))) [
              | inl hit ↦ (
                entry_type c (ranges (base + lim / 2)),
                rw (k, hit) refl,
                inl (base + lim / 2, omega arith, hit, refl),
              )
              | inr miss ↦ elim (Bool-cases (ltb (ranges (base + lim / 2)).max c)) [
                | inl up ↦
                    let (t, e, found) =
                      search_ranges-TypeOf rounds (base + lim / 2 + 1) ((lim - 1) / 2) (omega arith)
                        (
                          omega arith,
                          (λ i lt.
                              below-max i (base + lim / 2) (omega arith) (omega arith)
                                (ground (arith, up))),
                          (λ i le lt. above i (omega arith) lt),
                        ) in
                    (t, rw (k, miss, up) e, found)
                | inr down ↦
                    let under : c < (ranges (base + lim / 2)).min = ground (arith, miss, down) in
                    let (t, e, found) =
                      search_ranges-TypeOf rounds base (lim / 2) (omega arith) (
                        omega arith,
                        below,
                        (λ i le lt. above-min (base + lim / 2) i le lt under),
                      ) in
                    (t, rw (k, miss, down) e, found)
              ]
            ]
      ]

-- A rune that is no negative number has the type that the table gives it, where the table has it, or its
-- range, in front of which no other one has it, or 0.
abbrev pub RuneType : RuneLocale → ℕ → ℕ → Type 0
RuneType locale c t =
    ((c < locale.cached) × (t ≡ locale.runetype c))
    ⊎ ((locale.cached ≤ c) × TypeOf locale.ranges locale.nranges c t)

abbrev pub Kind : RuneLocale → ℕ → ℕ → Type 0
Kind locale c t =
    ((is_negative c ≡ true) × (t ≡ 0)) ⊎ ((is_negative c ≡ false) × RuneType locale c t)

module _ (locale : RuneLocale) (rounds c f : ℕ) (ordered : InOrder locale.ranges locale.nranges)
    (enough : locale.nranges < rounds) (ascii_cached : 128 ≤ locale.cached) where
  maskrune-Kind : (t : ℕ) × (maskrune locale rounds c f ≡ some (bit_and t f)) × Kind locale c t
  unfolding maskrune runetype_l
  maskrune-Kind = elim (Bool-cases (is_negative c)) [
    | inl y ↦ (0, ground (arith, y), inl (y, refl))
    | inr k ↦ elim (Bool-cases (leb locale.cached c)) [
      | inr low ↦
          (locale.runetype c, ground (arith, k, low), inr (k, inl (ground (arith, low), refl)))
      | inl high ↦
          let (t, e, found) =
            search_ranges-TypeOf locale.ranges locale.nranges c ordered rounds 0 locale.nranges
              enough
              (omega arith, (λ i lt. absurd (omega arith)), (λ i le lt. absurd (omega arith))) in
          (t, ground (arith, k, high, e), inr (k, inr (ground (arith, high), found)))
    ]
  ]

  ascii-Kind : isascii c ≡ true → Kind locale c (locale.runetype c)
  ascii-Kind h =
      let small : c < 128 = ground (arith, h) in
      inr (ground (arith, small), inl (omega arith, refl))

  -- With ranges in order, more rounds than there are ranges and a table that has the ASCII characters,
  -- `__istype` of a rune ends. It tells whether the type of the rune, which is that of the table where it
  -- has the rune, that of the range that has the rune, or 0 where none has it, has a bit of the mask; for a
  -- negative rune the type is 0.
  pub istype_classifies :
      (t : ℕ) × (istype locale rounds c f ≡ some (to_bool (bit_and t f))) × Kind locale c t
  unfolding istype
  istype_classifies = elim (Bool-cases (isascii c)) [
    | inl y ↦ (locale.runetype c, ground (arith, y), ascii-Kind y)
    | inr k ↦ (let (t, e, kind) = maskrune-Kind in (t, ground (arith, k, e), kind))
  ]
