-- ===== src/Environ/First.antt =====
-- `__findenv` of core/Environ.c takes the first entry of the environment for a name.
use lib_system_and_linker.Prelude.{
  ℕ, ◌+◌, ◌≡◌, ◌⊎◌, inl, inr, refl, ap, ◌∙◌, ◌==◌, Bool-cases, Option, none, some, Option-cases,
  List, [], ◌∷◌, ◌++◌, length, arith,
}
use lib_system_and_linker.Environ.{key_of, entry_value, find_entry, findenv}

-- The entry is one for the key, with a value.
abbrev pub IsEntry : List ℕ → List ℕ → List ℕ → Type 0
IsEntry key value entry = entry ≡ key ++ (b'=' ∷ value)

abbrev pub NoEntry : List ℕ → List (List ℕ) → Type 0
NoEntry key [] = Unit
NoEntry key (entry ∷ environ) = ((value : List ℕ) → ¬ IsEntry key value entry) × NoEntry key environ

entry_value-IsEntry :
    (key entry value : List ℕ) → entry_value key entry ≡ some value → IsEntry key value entry
unfolding entry_value
entry_value-IsEntry [] [] value h = cc
entry_value-IsEntry [] (c ∷ entry) value h = ground (arith, h)
entry_value-IsEntry (k ∷ key) [] value h = cc
entry_value-IsEntry (k ∷ key) (c ∷ entry) value h = elim (Bool-cases (c == k)) [
  | inl y ↦ ground (arith, y, entry_value-IsEntry key entry value)
  | inr n ↦ ground (arith, n)
]

IsEntry-entry_value : (key value : List ℕ) → entry_value key (key ++ (b'=' ∷ value)) ≡ some value
unfolding entry_value
IsEntry-entry_value [] value = refl
IsEntry-entry_value (k ∷ key) value = ground (arith, IsEntry-entry_value key value)

-- The first entry for the key, with the number of entries before it, or none.
abbrev pub FoundFirst : List ℕ → List (List ℕ) → ℕ → Option (ℕ × List ℕ) → Type 0
FoundFirst key environ offset r =
    ((r ≡ none) × NoEntry key environ)
    ⊎ ((before : List (List ℕ)) × (value : List ℕ) × (after : List (List ℕ)) × (environ
          ≡ before ++ ((key ++ (b'=' ∷ value)) ∷ after))
        × NoEntry key before
        × (r ≡ some (offset + length before, value)))

find_entry-FoundFirst :
    (key : List ℕ) (environ : List (List ℕ)) (offset : ℕ)
    → FoundFirst key environ offset (find_entry key environ offset)
unfolding find_entry
find_entry-FoundFirst key [] offset = inl (refl, tt)
find_entry-FoundFirst key (entry ∷ environ) offset = elim (Option-cases (entry_value key entry)) [
  | inr (value, e) ↦
      let is = entry_value-IsEntry key entry value e in
      let here : offset ≡ offset + 0 = omega arith in
      inr (
        [],
        value,
        environ,
        ap (λ x. x ∷ environ) is,
        tt,
        rw (find_entry, e) (ap (λ n. some (n, value)) here),
      )
  | inl e ↦ elim (find_entry-FoundFirst key environ (offset + 1)) [
    | inl (r, out) ↦ inl (rw (find_entry, e) r, (not_entry e, out))
    | inr (before, value, after, eq, out, r) ↦
        let next : offset + 1 + length before ≡ offset + length (entry ∷ before) = omega arith in
        inr (
          entry ∷ before,
          value,
          after,
          ap (λ xs. entry ∷ xs) eq,
          (not_entry e, out),
          rw (find_entry, e) (r ∙ ap (λ n. some (n, value)) next),
        )
  ]
]
  where
    not_entry : entry_value key entry ≡ none → (value : List ℕ) → ¬ IsEntry key value entry
    not_entry e value is =
        (let found : entry_value key entry ≡ some value = rw is (IsEntry-entry_value key value) in
          cc)

-- `__findenv` of a name and an environment returns NULL exactly where no entry is what stands before the
-- first '=' of the name, a '=' and a value; else it returns the value of the first such entry, and its
-- place in the environment.
pub findenv_finds_first :
    (name : List ℕ) (environ : List (List ℕ))
    → FoundFirst (key_of name) environ 0 (findenv (some name) (some environ))
unfolding findenv
findenv_finds_first name environ = find_entry-FoundFirst (key_of name) environ 0
