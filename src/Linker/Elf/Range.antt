-- ===== src/Linker/Elf/Range.antt =====
-- The mappings of core/lnk_elf.cpp lie in the range that it reserves.
use native.Mathlib.Nat.{div-add-mod, mod-lt}
use mathlib.Core.Path.{subst}
use lib_system_and_linker.Prelude.{
  ℕ, ◌+◌, ◌-◌, ◌%◌, ◌≤◌, ◌<◌, ◌≡◌, ◌≢◌, ◌⊎◌, inl, inr, sym, refl, ltb, if◌then◌else◌, true, false,
  Bool-cases, List, [], ◌∷◌, arith,
}
use lib_system_and_linker.Linker.Stream.{done}
use lib_system_and_linker.Linker.Rebase.{word_mod}
use lib_system_and_linker.Linker.Mapping.{Mapping, anonymous, from_file}
use lib_system_and_linker.Linker.Elf.{
  is_load, ProgramHeader, vaddr_range, page_start, range_size, wire_segments, ElfFile, ElfObject,
  new_elf_object, parse_dyns, instantiate_elf,
}
use lib_system_and_linker.Linker.Elf.Relocations.{
  NoRelocations, StopsAt, StopsAt-bind, parse_dynamic_segment-cases,
}

-- The segments that are loaded end at `top` or below, and no file part is larger than its segment.
abbrev pub EndBelow : ℕ → List ProgramHeader → Type 0
EndBelow top [] = Unit
EndBelow top (ph ∷ phs) =
    (is_load ph.type ≡ true → (ph.vaddr + ph.memsz ≤ top) × (ph.filesz ≤ ph.memsz))
    × EndBelow top phs

-- The mapping lies between two addresses.
abbrev pub Within : ℕ → ℕ → Mapping → Type 0
Within lo hi (anonymous start size) = (lo ≤ start) × (start + size ≤ hi)
Within lo hi (from_file start size off) = (lo ≤ start) × (start + size ≤ hi)

abbrev pub AllWithin : ℕ → ℕ → List Mapping → Type 0
AllWithin lo hi [] = Unit
AllWithin lo hi (m ∷ ms) = Within lo hi m × AllWithin lo hi ms

abbrev raised : ℕ → ProgramHeader → ℕ
raised max ph = if ltb max (ph.vaddr + ph.memsz) then ph.vaddr + ph.memsz else max

vaddr_range-loaded :
    (ph : ProgramHeader) (phs : List ProgramHeader) (max : ℕ)
    → is_load ph.type ≡ true
    → ph.vaddr + ph.memsz < word_mod
    → vaddr_range (ph ∷ phs) max 0 ≡ vaddr_range phs (raised max ph) 0
unfolding vaddr_range
vaddr_range-loaded ph phs max y small =
    let whole : (ph.vaddr + ph.memsz) % word_mod ≡ ph.vaddr + ph.memsz = omega arith in
    let none_below : ltb ph.vaddr 0 ≡ false = ground arith in rw (y, whole, none_below) refl

vaddr_range-other :
    (ph : ProgramHeader) (phs : List ProgramHeader) (max : ℕ)
    → is_load ph.type ≡ false
    → vaddr_range (ph ∷ phs) max 0 ≡ vaddr_range phs max 0
unfolding vaddr_range
vaddr_range-other ph phs max n = rw n refl

vaddr_range-none : (max : ℕ) → vaddr_range [] max 0 ≡ (max, 0)
unfolding vaddr_range
vaddr_range-none max = refl

-- From 0 to the end of each segment, and not above `top`.
abbrev Covers : ℕ → ℕ → List ProgramHeader → ℕ × ℕ → Type 0
Covers top max phs (hi, lo) = (max ≤ hi) × (hi ≤ top) × (lo ≡ 0) × EndBelow hi phs

range_ends :
    (phs : List ProgramHeader) (top max : ℕ)
    → EndBelow top phs
    → top < word_mod
    → max ≤ top
    → Covers top max phs (vaddr_range phs max 0)
range_ends [] top max h small le =
    subst (λ r. Covers top max [] r) (sym (vaddr_range-none max)) (omega arith, le, refl, tt)
range_ends (ph ∷ phs) top max (here, h) small le = elim (Bool-cases (is_load ph.type)) [
  | inl y ↦
      let (below, smaller) = here y in
      let (reach, in_top, none_below, ends) =
        range_ends phs top (raised max ph) h small (ground (arith, below)) in
      let first : max ≤ raised max ph = ground arith in
      let own : ph.vaddr + ph.memsz ≤ raised max ph = ground arith in
      subst (λ r. Covers top max (ph ∷ phs) r)
        (sym (vaddr_range-loaded ph phs max y (omega (arith, below))))
        (
          omega (arith, reach, first),
          in_top,
          none_below,
          ((λ z. (omega (arith, reach, own), smaller)), ends),
        )
  | inr n ↦
      let (reach, in_top, none_below, ends) = range_ends phs top max h small le in
      subst (λ r. Covers top max (ph ∷ phs) r) (sym (vaddr_range-other ph phs max n))
        (reach, in_top, none_below, ((λ z. cc), ends))
]

-- The mappings of the segments lie in the range.
wire_segments-AllWithin :
    (phs : List ProgramHeader) (rs hi dyn top : ℕ)
    → EndBelow hi phs
    → rs + hi ≤ top
    → top < word_mod
    → AllWithin rs top (wire_segments rs phs dyn).0
unfolding wire_segments
wire_segments-AllWithin [] rs hi dyn top h le small = tt
wire_segments-AllWithin (ph ∷ phs) rs hi dyn top (here, h) le small =
    elim (Bool-cases (is_load ph.type)) [
      | inl y ↦
          let (below, smaller) = here y in
          let whole : (rs + ph.vaddr) % word_mod ≡ rs + ph.vaddr = omega (arith, below) in
          rw (y, whole)
            (
              (omega arith, omega (arith, below, smaller)),
              wire_segments-AllWithin phs rs hi _ top h le small,
            )
      | inr n ↦ rw n (wire_segments-AllWithin phs rs hi _ top h le small)
    ]

-- A number is less than a page above the start of its page.
page_start-near :
    (page_size x : ℕ)
    → 0 < page_size
    → (page_start page_size x ≤ x) × (x < page_start page_size x + page_size)
page_start-near page_size x pos =
    let parts = div-add-mod x page_size in
    let part = mod-lt x pos in (omega (arith, parts, part), omega (arith, parts, part))

EndBelow-raise :
    (phs : List ProgramHeader) (lo hi : ℕ) → lo ≤ hi → EndBelow lo phs → EndBelow hi phs
EndBelow-raise [] lo hi le h = tt
EndBelow-raise (ph ∷ phs) lo hi le (here, h) =
    ((λ y. (omega (arith, (here y).0), (here y).1)), EndBelow-raise phs lo hi le h)

-- What is reserved reaches from the lowest address to the end of the last page.
rounded :
    (page_size hi lo : ℕ)
    → 0 < page_size
    → hi + page_size ≤ word_mod
    → lo ≡ 0
    → hi
      ≤ (page_start page_size ((hi + page_size + word_mod - 1) % word_mod)
          + word_mod
          - page_start page_size lo)
        % word_mod
rounded page_size hi lo pos small zero_lo =
    let sum : (hi + page_size + word_mod - 1) % word_mod ≡ hi + page_size - 1 = omega arith in
    let (below, above) = page_start-near page_size (hi + page_size - 1) pos in
    let (low, _) = page_start-near page_size 0 pos in
    rw (sum, zero_lo) (omega (arith, below, above, low))

range_size-EndBelow :
    (page_size : ℕ) (phs : List ProgramHeader) (top : ℕ)
    → 0 < page_size
    → EndBelow top phs
    → top + page_size ≤ word_mod
    → EndBelow (range_size page_size phs) phs
unfolding range_size
range_size-EndBelow page_size phs top pos h small =
    let (first, in_top, lowest, ends) = range_ends phs top 0 h (omega arith) (omega arith) in
    EndBelow-raise phs _ _
      (rounded page_size (vaddr_range phs 0 0).0 (vaddr_range phs 0 0).1 pos (omega (arith, in_top))
        lowest)
      ends

-- `instantiateFromFile` of an ELF file whose loaded segments end at `top` or below, a page or more below
-- 2^32, with no file part larger than its segment, where `mmap` gives a range inside the addresses of 32
-- bits and the entries of the dynamic segment, which is there, are known: it maps the range that it
-- reserves and the file's parts, all of them in that range, and makes the object that the entries
-- describe, if that has no relocations; else the linker halts, or it reads a relocation or a symbol of one
-- through a table's address that is NULL.
pub instantiate_elf-AllWithin :
    (page_size : ℕ) (reserved : ℕ → ℕ) (f : ElfFile) (top : ℕ) (p : ElfObject)
    → 0 < page_size
    → f.has_magic ≡ true
    → EndBelow top f.headers
    → top + page_size ≤ word_mod
    → reserved (range_size page_size f.headers) + range_size page_size f.headers < word_mod
    → (wire_segments (reserved (range_size page_size f.headers)) f.headers 0).1 ≢ 0
    → parse_dyns
        (f.dynamic_at (wire_segments (reserved (range_size page_size f.headers)) f.headers 0).1)
        (new_elf_object (reserved (range_size page_size f.headers)))
      ≡ done p
    → (NoRelocations p
        × (ms : List Mapping) × (instantiate_elf page_size reserved f ≡ done (ms, p))
        × AllWithin
            (reserved (range_size page_size f.headers))
            (reserved (range_size page_size f.headers) + range_size page_size f.headers)
            ms)
      ⊎ ((¬ NoRelocations p) × StopsAt p (instantiate_elf page_size reserved f))
unfolding instantiate_elf
instantiate_elf-AllWithin page_size reserved f top p pos magic h small fits dynamic parsed =
    let size : ℕ = range_size page_size f.headers in
    let rs : ℕ = reserved size in
    let dyn : ℕ = (wire_segments rs f.headers 0).1 in
    let within =
      wire_segments-AllWithin f.headers rs size 0 (rs + size)
        (range_size-EndBelow page_size f.headers top pos h small) (omega arith) fits in
    elim (parse_dynamic_segment-cases f dyn (new_elf_object rs) p dynamic parsed) [
      | inl (none_there, e) ↦ inl (
        none_there,
        anonymous rs size ∷ (wire_segments rs f.headers 0).0,
        rw (magic, e) refl,
        ((omega arith, omega arith), within),
      )
      | inr (some_there, s) ↦ inr (some_there, rw magic (StopsAt-bind p _ _ s))
    ]
