-- ===== src/Linker/Elf/Relocations.antt =====
-- What core/lnk_elf.cpp does with the dynamic segment and the relocations of an ELF file.
use lib_system_and_linker.Prelude.{
  if◌then◌else◌, ℕ, zero, suc, ◌/◌, ◌≤◌, ◌<◌, ◌≡◌, ◌≢◌, ◌⊎◌, inl, inr, refl, ◌==◌, false,
  Bool-cases, arith,
}
use lib_system_and_linker.Linker.Stream.{Result, done, halts, strays, ◌>>=◌}
use lib_system_and_linker.Linker.Elf.{
  RelocType, ignored, invalid, Rel, first_switch, second_switch, read_entry, read_rels, read_reloc,
  ElfFile, ElfObject, parse_dyns, parse_dynamic_segment,
}

-- There is no relocation: less than one fits in.
abbrev pub NoRelocations : ElfObject → Type 0
NoRelocations o = (o.rel_size < 8) × (o.plt_rel_size < 8)

-- What stops the linker at a relocation, at the table's address and with a table of symbols: it halts, or
-- it reads through NULL.
abbrev pub Stops {ℓ} : {A : Type ℓ} → ℕ → ℕ → Result A → Type ℓ
Stops symbols a r = (r ≡ halts) ⊎ (((a ≡ 0) ⊎ (symbols ≡ 0)) × (r ≡ strays))

-- Each relocation stops the linker.
read_entry-Stops :
    (symbols a : ℕ) (r : Rel) → Stops symbols a (if a == 0 then strays else read_entry symbols r)
unfolding read_entry
read_entry-Stops symbols a r = elim (Bool-cases (a == 0)) [
  | inl null ↦ inr (inl (ground (arith, null)), rw null refl)
  | inr there ↦ elim (Bool-cases (r.sym == 0)) [
    | inl y ↦ inl (rw (there, y) refl)
    | inr n ↦ elim (Bool-cases (symbols == 0)) [
      | inl z ↦ inr (inr (ground (arith, z)), rw (there, n, z) refl)
      | inr table ↦ inl (rw (there, n, table) (by_type r.type))
    ]
  ]
]
  where
    by_type : (t : RelocType) → (first_switch t >>= second_switch) ≡ halts
    by_type ignored = refl
    by_type invalid = refl

Stops-bind {ℓ κ} :
    {A : Type ℓ} {B : Type κ} (symbols a : ℕ) (r : Result A) (f : A → Result B)
    → Stops symbols a r
    → Stops symbols a (r >>= f)
Stops-bind symbols a r f (inl e) = inl (rw e refl)
Stops-bind symbols a r f (inr (null, e)) = inr (null, rw e refl)

read_rels-cases :
    (symbols : ℕ) (entry : ℕ → Rel) (count a : ℕ)
    → ((count ≡ 0) × (read_rels symbols entry count a ≡ done tt))
      ⊎ ((0 < count) × Stops symbols a (read_rels symbols entry count a))
unfolding read_rels
read_rels-cases symbols entry zero a = inl (refl, refl)
read_rels-cases symbols entry (suc count) a = inr (
  omega arith,
  Stops-bind symbols a (if a == 0 then strays else read_entry symbols (entry a)) _
      (read_entry-Stops symbols a (entry a)),
)

read_reloc-cases :
    (symbols : ℕ) (entry : ℕ → Rel) (a size : ℕ)
    → ((size < 8) × (read_reloc symbols entry a size ≡ done tt))
      ⊎ ((8 ≤ size) × Stops symbols a (read_reloc symbols entry a size))
unfolding read_reloc
read_reloc-cases symbols entry a size = elim (read_rels-cases symbols entry (size / 8) a) [
  | inl (nothing, e) ↦ inl (omega (arith, nothing), e)
  | inr (some_there, e) ↦ inr (omega (arith, some_there), e)
]

-- An object with relocations: the linker halts, or, where a table that it reads through may be NULL, the
-- access is left open.
abbrev pub StopsAt {ℓ} : {A : Type ℓ} → ElfObject → Result A → Type ℓ
StopsAt p r = Stops p.symtab p.rel r ⊎ Stops p.symtab p.plt_rel r

pub StopsAt-bind {ℓ κ} :
    {A : Type ℓ} {B : Type κ} (p : ElfObject) (r : Result A) (f : A → Result B)
    → StopsAt p r
    → StopsAt p (r >>= f)
StopsAt-bind p r f (inl s) = inl (Stops-bind p.symtab p.rel r f s)
StopsAt-bind p r f (inr s) = inr (Stops-bind p.symtab p.plt_rel r f s)

-- The two calls of `readReloc`.
abbrev relocated : ElfFile → ElfObject → Result ElfObject
relocated f p = read_reloc p.symtab f.rel_at p.rel p.rel_size >>= λ u.
    read_reloc p.symtab f.rel_at p.plt_rel p.plt_rel_size >>= λ v. done p

relocated-cases :
    (f : ElfFile) (p : ElfObject)
    → (NoRelocations p × (relocated f p ≡ done p))
      ⊎ ((¬ NoRelocations p) × StopsAt p (relocated f p))
relocated-cases f p = elim (read_reloc-cases p.symtab f.rel_at p.rel p.rel_size) [
  | inr (some_there, s) ↦ inr (
    (λ n. omega (arith, n.0, some_there)),
    inl (Stops-bind p.symtab p.rel (read_reloc p.symtab f.rel_at p.rel p.rel_size) _ s),
  )
  | inl (none_there, e) ↦ elim (read_reloc-cases p.symtab f.rel_at p.plt_rel p.plt_rel_size) [
    | inr (some_there, s) ↦ inr (
      (λ n. omega (arith, n.1, some_there)),
      rw e (
          inr (
            Stops-bind p.symtab p.plt_rel (read_reloc p.symtab f.rel_at p.plt_rel p.plt_rel_size) _
              s)),
    )
    | inl (none_there', e') ↦ inl ((none_there, none_there'), rw (e, e') refl)
  ]
]

pub parse_dynamic_segment-cases :
    (f : ElfFile) (dyn : ℕ) (o p : ElfObject)
    → dyn ≢ 0
    → parse_dyns (f.dynamic_at dyn) o ≡ done p
    → (NoRelocations p × (parse_dynamic_segment f dyn o ≡ done p))
      ⊎ ((¬ NoRelocations p) × StopsAt p (parse_dynamic_segment f dyn o))
unfolding parse_dynamic_segment
parse_dynamic_segment-cases f dyn o p dynamic parsed =
    let there : (dyn == 0) ≡ false = ground (arith, dynamic) in
    rw (there, parsed) (relocated-cases f p)
