-- ===== src/Linker/Lookup.antt =====
-- `binary_search` and `binary_search_toc` of core/lnk_util.cpp: the search for a symbol's name in a
-- sorted symbol table, and in a sorted table of contents.
pub mod Search
pub mod Toc
mod Runs
use lib_system_and_linker.Prelude.{
  ◌^◌, ◌||◌, leb, if◌then◌else◌, ltb, ℕ, zero, suc, ◌+◌, ◌-◌, ◌/◌, ◌==◌, Bool, true, false, Option,
  none, some,
}
use lib_system_and_linker.Linker.Stream.{Result, done, strays}

-- The sign of `strcmp(key, pivotStr)`.
pub data Order : Type 0 where
  less : Order
  equal : Order
  greater : Order

-- `strcmp` is a function of the C library: `compare_key` gives its sign for the key and the name of
-- the symbol with an index.
module _ (compare_key : ℕ → Order) where
  -- The loop, from `base` on with `n` symbols, and a number of rounds.
  unfoldable pub search : ℕ → ℕ → ℕ → Option ℕ
  search zero base n = none
  search (suc rounds) base n = elim (n == 0) [
    | true ↦ none
    | false ↦ elim (compare_key (base + n / 2)) [
      | equal ↦ some (base + n / 2)
      | greater ↦ search rounds (base + n / 2 + 1) ((n - 1) / 2)
      | less ↦ search rounds base (n / 2)
    ]
  ]

  -- The index of the symbol, `none` for NULL.
  unfoldable pub binary_search : ℕ → Option ℕ
  unfolding search
  binary_search symbol_count = search (suc symbol_count) 0 symbol_count

  -- The loop of `binary_search_toc`, where `compare_key` is for the name of the symbol of an entry.
  -- `high` is one above the source's.
  unfoldable pub toc_search : ℕ → ℕ → ℕ → ℕ → Option ℕ
  toc_search zero low high mid = none
  toc_search (suc rounds) low high mid = elim (ltb low high) [
    | false ↦ none
    | true ↦ elim (compare_key mid) [
      | equal ↦ some mid
      | greater ↦ toc_search rounds (mid + 1) high ((mid + 1 + high - 1) / 2)
      | less ↦ toc_search rounds low mid ((low + mid - 1) / 2)
    ]
  ]

  -- The index of the entry, `none` for NULL. Both parameters are uint32_t, and `high` and `mid` are
  -- int32_t: with no symbols or more than 2^31 the loop has no round, with a hint from 2^31 on `mid` is
  -- negative and the first round reads in front of the table, and with more than 2^30 symbols, which no
  -- memory has room for, `low + high` may overflow.
  unfoldable pub binary_search_toc : ℕ → ℕ → Result (Option ℕ)
  unfolding toc_search
  binary_search_toc symbol_count hint_index =
      if symbol_count == 0 || ltb (2 ^ 31) symbol_count
      then done none
      else (if leb (2 ^ 31) hint_index || ltb (2 ^ 30) symbol_count
          then strays
          else done (
              toc_search (suc symbol_count) 0 symbol_count
                (if leb symbol_count hint_index then symbol_count / 2 else hint_index)))
