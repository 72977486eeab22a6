-- ===== src/Ctypes/Runs.antt =====
-- Classes of characters in a small locale, for core/ctypes_non_inline.c.
use lib_system_and_linker.Prelude.{
  ℕ, ◌<◌, ◌≡◌, inl, inr, refl, ◌==◌, leb, ltb, ◌&&◌, if◌then◌else◌, bit_and, true, false,
  Bool-cases, none, some, arith,
}
use lib_system_and_linker.Ctypes.{RuneEntry, RuneLocale, to_bool, istype, isalpha}
use lib_system_and_linker.Ctypes.Search.{InOrder, Kind, istype_classifies}

-- Letters with codes of the table, three ranges of letters and one whose second rune is a space.
abbrev runetype : ℕ → ℕ
runetype c = if leb 97 c && ltb c 123 then 0x1100 else (if leb 48 c && ltb c 58 then 0x400 else 0)

abbrev ranges : ℕ → RuneEntry
ranges i =
    if i == 2
    then record {
      min = 0x2000;
      max = 0x2001;
      types = some (λ k. if k == 0 then 0 else 0x4000);
      map = 0;
    }
    else (if i == 1
        then record { min = 0x800; max = 0x8ff; types = none; map = 0x100 }
        else record { min = 0x400; max = 0x4ff; types = none; map = 0x100 })

abbrev locale : RuneLocale
locale = record { cached = 256; runetype = runetype; ranges = ranges; nranges = 3 }

in_order_pair : (i j : ℕ) → i < j → j < 3 → (ranges i).max < (ranges j).min
in_order_pair i j h k =
    let low : (i == 2) ≡ false = ground arith in
    elim (Bool-cases (i == 1)) [
      | inl y ↦ (let top : (j == 2) ≡ true = ground (arith, y) in rw (low, y, top) (omega arith))
      | inr n ↦ elim (Bool-cases (j == 2)) [
        | inl z ↦ rw (low, n, z) (omega arith)
        | inr z ↦
            (let one : (j == 1) ≡ true = ground (arith, n, z) in rw (low, n, z, one) (omega arith))
      ]
    ]

in_order : InOrder ranges 3
in_order = (
  (λ i h. elim (Bool-cases (i == 2)) [
    | inl y ↦ rw y (omega arith)
    | inr n ↦ elim (Bool-cases (i == 1)) [
      | inl y ↦ rw (n, y) (omega arith)
      | inr k ↦ rw (n, k) (omega arith)
    ]
  ]),
  (λ i j h k. in_order_pair i j h k),
)

istype_classifies_example :
    (t : ℕ) × (istype locale 4 0x850 0x100 ≡ some (to_bool (bit_and t 0x100))) × Kind locale 0x850 t
istype_classifies_example =
    istype_classifies locale 4 0x850 0x100 in_order (omega arith) (omega arith)

letter : isalpha locale 4 0x850 ≡ some true
unfolding istype
letter = refl

no_letter : isalpha locale 4 0x900 ≡ some false
unfolding istype
no_letter = refl

space : istype locale 4 0x2001 0x4000 ≡ some true
unfolding istype
space = refl
