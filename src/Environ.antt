-- ===== src/Environ.antt =====
-- core/Environ.c: the lookup of a name in the environment.
pub mod First
mod Runs
use lib_system_and_linker.Prelude.{
  ℕ, zero, suc, ◌+◌, ◌==◌, if◌then◌else◌, Bool, true, false, Option, none, some, List, [], ◌∷◌,
}

-- A string is the list of its bytes before the '\0', an environment the list of its strings before the
-- NULL. What stands before the first '=' of a name, which `len` counts.
unfoldable pub key_of : List ℕ → List ℕ
key_of [] = []
key_of (c ∷ name) = let rest = key_of name in if c == b'=' then [] else c ∷ rest

-- The loop over an entry: what is left of it where all of the key is there.
unfoldable pub after_key : List ℕ → List ℕ → Option (List ℕ)
after_key [] entry = some entry
after_key (k ∷ key) [] = none
after_key (k ∷ key) (c ∷ entry) = let rest = after_key key entry in if c == k then rest else none

-- `*cp++ == '='`, and the string from `cp` on.
abbrev pub behind_equals : List ℕ → Option (List ℕ)
behind_equals [] = none
behind_equals (c ∷ value) = if c == b'=' then some value else none

unfoldable pub entry_value : List ℕ → List ℕ → Option (List ℕ)
unfolding after_key
entry_value key entry = elim (after_key key entry) [ none ↦ none | some rest ↦ behind_equals rest ]

-- The loop over the environment: the string that is returned, and `*offset`.
unfoldable pub find_entry : List ℕ → List (List ℕ) → ℕ → Option (ℕ × List ℕ)
unfolding entry_value
find_entry key [] offset = none
find_entry key (entry ∷ environ) offset = elim (entry_value key entry) [
  | some value ↦ some (offset, value)
  | none ↦ find_entry key environ (offset + 1)
]

-- `__findenv`; `none` is NULL.
unfoldable pub findenv : Option (List ℕ) → Option (List (List ℕ)) → Option (ℕ × List ℕ)
unfolding find_entry key_of
findenv none environ = none
findenv (some name) none = none
findenv (some name) (some environ) = find_entry (key_of name) environ 0

abbrev pub value_of : Option (ℕ × List ℕ) → Option (List ℕ)
value_of none = none
value_of (some (offset, value)) = some value

-- `strings_at` is what an address leads to as a `char**`, `none` for NULL, and `envp` is the address
-- that `*envp` is.
unfoldable pub getenvp : (ℕ → Option (List (List ℕ))) → Option (List ℕ) → ℕ → Option (List ℕ)
unfolding findenv
getenvp strings_at name envp = value_of (findenv name (strings_at envp))

-- `gEnvironPtr` points to the array `gEnviron`, so `*_NSGetEnviron()` is the first entry of the array,
-- read as the address of an environment.
unfoldable pub getenv : (ℕ → Option (List (List ℕ))) → List ℕ → Option (List ℕ) → Option (List ℕ)
unfolding getenvp
getenv strings_at g_environ name = elim g_environ [
  | [] ↦ getenvp strings_at name 0
  | first ∷ rest ↦ getenvp strings_at name first
]
