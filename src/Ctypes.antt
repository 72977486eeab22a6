-- ===== src/Ctypes.antt =====
-- core/ctypes_non_inline.c: the classes of characters.
pub mod Search
mod Runs
use lib_system_and_linker.Prelude.{
  ℕ, zero, suc, ◌+◌, ◌-◌, ◌/◌, ◌%◌, ◌^◌, ◌==◌, leb, ltb, not, ◌&&◌, ◌||◌, if◌then◌else◌, bit_and,
  Bool, true, false, Option, none, some,
}

-- `_RuneEntry`: the types of its runes one by one, where `__types` is not NULL, or one for all.
pub record RuneEntry : Type 0 where
  pub min : ℕ
  pub max : ℕ
  pub types : Option (ℕ → ℕ)
  pub map : ℕ

-- `_DefaultRuneLocale`: `__runetype`, and the ranges of `__runetype_ext` with their number. `cached` is
-- `_CACHED_RUNES` of runetype.h, which is in no file of the repository: how many runes `__runetype` has.
pub record RuneLocale : Type 0 where
  pub cached : ℕ
  pub runetype : ℕ → ℕ
  pub ranges : ℕ → RuneEntry
  pub nranges : ℕ

abbrev pub in_entry : ℕ → RuneEntry → Bool
in_entry c re = leb re.min c && leb c re.max

abbrev pub entry_type : ℕ → RuneEntry → ℕ
entry_type c re = elim re.types [ some types ↦ types (c - re.min) | none ↦ re.map ]

-- The loop of `___runetype_l`, with a number of rounds; `none` where they are not enough.
unfoldable pub search_ranges : (ℕ → RuneEntry) → ℕ → ℕ → ℕ → ℕ → Option ℕ
search_ranges ranges c zero base lim = none
search_ranges ranges c (suc rounds) base lim =
    let re = ranges (base + lim / 2) in
    let above = search_ranges ranges c rounds (base + lim / 2 + 1) ((lim - 1) / 2) in
    let below = search_ranges ranges c rounds base (lim / 2) in
    if lim == 0
    then some 0
    else (if in_entry c re then some (entry_type c re) else (if ltb re.max c then above else below))

-- A rune is an int, here its 32 bits: EOF is -1, and one from 2^31 on is negative.
abbrev pub is_negative : ℕ → Bool
is_negative c = leb (2 ^ 31) c

-- `(_c & ~0x7F) == 0`.
abbrev pub isascii : ℕ → Bool
isascii c = c / 128 == 0

-- `!!`.
abbrev pub to_bool : ℕ → Bool
to_bool x = not (x == 0)

module _ (locale : RuneLocale) (rounds : ℕ) where
  unfoldable pub runetype_l : ℕ → Option ℕ
  unfolding search_ranges
  runetype_l c =
      if is_negative c then some 0 else search_ranges locale.ranges c rounds 0 locale.nranges

  unfoldable pub maskrune : ℕ → ℕ → Option ℕ
  unfolding runetype_l
  maskrune c f = elim (is_negative c || leb locale.cached c) [
    | true ↦ elim (runetype_l c) [ none ↦ none | some t ↦ some (bit_and t f) ]
    | false ↦ some (bit_and (locale.runetype c) f)
  ]

  unfoldable pub istype : ℕ → ℕ → Option Bool
  unfolding maskrune
  istype c f = elim (isascii c) [
    | true ↦ some (to_bool (bit_and (locale.runetype c) f))
    | false ↦ elim (maskrune c f) [ none ↦ none | some t ↦ some (to_bool t) ]
  ]

  unfoldable pub isctype : ℕ → ℕ → Bool
  isctype c f =
      if is_negative c || leb locale.cached c
      then false
      else to_bool (bit_and (locale.runetype c) f)

  abbrev pub isalnum : ℕ → Option Bool
  isalnum c = istype c 0x500

  abbrev pub isalpha : ℕ → Option Bool
  isalpha c = istype c 0x100

  abbrev pub isblank : ℕ → Option Bool
  isblank c = istype c 0x20000

  abbrev pub iscntrl : ℕ → Option Bool
  iscntrl c = istype c 0x200

  abbrev pub isdigit : ℕ → Bool
  isdigit c = isctype c 0x400

  abbrev pub isgraph : ℕ → Option Bool
  isgraph c = istype c 0x800

  abbrev pub islower : ℕ → Option Bool
  islower c = istype c 0x1000

  abbrev pub isprint : ℕ → Option Bool
  isprint c = istype c 0x40000

  abbrev pub ispunct : ℕ → Option Bool
  ispunct c = istype c 0x2000

  abbrev pub isspace : ℕ → Option Bool
  isspace c = istype c 0x4000

  abbrev pub isupper : ℕ → Option Bool
  isupper c = istype c 0x8000

  abbrev pub isxdigit : ℕ → Bool
  isxdigit c = isctype c 0x10000

abbrev pub toascii : ℕ → ℕ
toascii c = c % 128
