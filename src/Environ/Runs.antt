-- ===== src/Environ/Runs.antt =====
-- Lookups of core/Environ.c in a small environment.
use lib_system_and_linker.Prelude.{ℕ, ◌≡◌, refl, none, some, List, [], ◌∷◌}
use lib_system_and_linker.Environ.{key_of, findenv, getenv}
use lib_system_and_linker.Environ.First.{FoundFirst, findenv_finds_first}

-- "AB=1", "A=2" and "A=3".
abbrev environ : List (List ℕ)
environ =
    (b'A' ∷ b'B' ∷ b'=' ∷ b'1' ∷ [])
    ∷ ((b'A' ∷ b'=' ∷ b'2' ∷ []) ∷ ((b'A' ∷ b'=' ∷ b'3' ∷ []) ∷ []))

findenv_finds_first_example :
    FoundFirst (key_of (b'A' ∷ [])) environ 0 (findenv (some (b'A' ∷ [])) (some environ))
findenv_finds_first_example = findenv_finds_first (b'A' ∷ []) environ

finds_second : findenv (some (b'A' ∷ b'=' ∷ [])) (some environ) ≡ some (1, b'2' ∷ [])
unfolding findenv
finds_second = refl

-- The array itself is never looked through.
finds_nothing : getenv (λ a. none) (0x1000 ∷ []) (some (b'A' ∷ [])) ≡ none
unfolding getenv
finds_nothing = refl
