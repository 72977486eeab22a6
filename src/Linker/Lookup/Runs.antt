-- ===== src/Linker/Lookup/Runs.antt =====
-- A run of `binary_search` of core/lnk_util.cpp on a table of five symbols.
use lib_system_and_linker.Prelude.{ℕ, ◌==◌, ltb, ◌<◌, ◌≤◌, ◌≡◌, refl, if◌then◌else◌, some, arith}
use lib_system_and_linker.Linker.Lookup.{Order, less, equal, greater, binary_search}

-- The key is the name of symbol 3.
abbrev compared : ℕ → Order
compared i = if i == 3 then equal else (if ltb i 3 then greater else less)

compared-greater : (j k : ℕ) → j ≤ k → k < 5 → compared k ≡ greater → compared j ≡ greater
compared-greater j k h l e = ground arith

compared-less : (j k : ℕ) → j ≤ k → k < 5 → compared j ≡ less → compared k ≡ less
compared-less j k h l e = ground arith

finds_three : binary_search compared 5 ≡ some 3
unfolding binary_search
finds_three = refl
