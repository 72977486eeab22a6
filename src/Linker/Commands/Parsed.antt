-- ===== src/Linker/Commands/Parsed.antt =====
-- What `parseLoadCommands` of core/lnk_macho.cpp makes of the load commands of an image, told without
-- its loop.
use mathlib.Core.List.{append-nil, append_assoc}
use lib_system_and_linker.Prelude.{
  ℕ, ◌+◌, ◌%◌, ◌<◌, ◌≡◌, ◌≢◌, refl, ap, sym, ◌∙◌, ◌==◌, leb, if◌then◌else◌, Bool, true, false,
  Option, none, some, Option-cases, List, [], ◌∷◌, ◌++◌, length, arith, length-append, inl, inr,
  Bool-cases,
}
use lib_system_and_linker.Linker.Stream.{Result, done, ◌>>=◌}
use lib_system_and_linker.Linker.Stream.Ensures.{bind_assoc, bind-ap}
use lib_system_and_linker.Linker.Rebase.{word_mod}
use lib_system_and_linker.Linker.Load.{Loader, Loading, load_dylibs}
use lib_system_and_linker.Linker.Commands.{
  SegmentCommand, Command, segment, unix_thread, routines, dylib, symtab, dysymtab, dyld_info,
  other, Parsing, file_base, is_linkedit, add_segment, parse_commands,
}

-- The value of `f` at the last command that has one, else `d`.
unfoldable pub last_of {ℓ} : {A : Type ℓ} → (ℕ × Command → Option A) → A → List (ℕ × Command) → A
last_of f d [] = d
last_of f d (c ∷ cs) = last_of f (elim (f c) [ none ↦ d | some a ↦ a ]) cs

-- The values of `f` at the commands that have one.
unfoldable pub all_of {ℓ} : {A : Type ℓ} → (ℕ × Command → List A) → List (ℕ × Command) → List A
all_of f [] = []
all_of f (c ∷ cs) = f c ++ all_of f cs

abbrev pub segment_of : ℕ × Command → List SegmentCommand
segment_of (a, segment seg) = seg ∷ []
segment_of (a, _) = []

abbrev pub dylib_of : ℕ × Command → List (ℕ × Bool)
dylib_of (a, dylib path re_exported) = (path, re_exported) ∷ []
dylib_of (a, _) = []

abbrev pub linkedit_of : ℕ → ℕ × Command → Option ℕ
linkedit_of slide (a, segment seg) =
    if is_linkedit seg.name then some (file_base slide seg) else none
linkedit_of slide (a, _) = none

abbrev pub entry_of : ℕ → ℕ × Command → Option ℕ
entry_of slide (a, unix_thread pc) = some ((slide + pc) % word_mod)
entry_of slide (a, _) = none

abbrev pub init_of : ℕ × Command → Option (Option ℕ)
init_of (a, routines init) = some (some init)
init_of (a, _) = none

abbrev pub dynamic_of : ℕ × Command → Option ℕ
dynamic_of (a, symtab stroff symoff) = some a
dynamic_of (a, dysymtab) = some a
dynamic_of (a, _) = none

abbrev pub dyld_of : ℕ × Command → Option (Option (ℕ × ℕ))
dyld_of (a, dyld_info only off size) = some (some (off, size))
dyld_of (a, _) = none

abbrev pub has_dyld : ℕ × Command → Option Bool
has_dyld (a, dyld_info only off size) = some true
has_dyld (a, _) = none

abbrev pub strings_of : ℕ → ℕ × Command → Option ℕ
strings_of base (a, symtab stroff symoff) = some ((base + stroff) % word_mod)
strings_of base (a, _) = none

abbrev pub symbols_of : ℕ → ℕ × Command → Option ℕ
symbols_of base (a, symtab stroff symoff) = some ((base + symoff) % word_mod)
symbols_of base (a, _) = none

-- The table of segments has room, at most one segment is __LINKEDIT, its base is not 0, and it stands
-- before each LC_SYMTAB. `count` segments and the base `base` are there already.
abbrev pub Ordered : ℕ → ℕ → ℕ → List (ℕ × Command) → Type 0
Ordered slide count base [] = Unit
Ordered slide count base ((a, segment seg) ∷ cs) =
    (count < 64)
    × (is_linkedit seg.name ≡ true → (base ≡ 0) × (file_base slide seg ≢ 0))
    × Ordered slide (count + 1) (if is_linkedit seg.name then file_base slide seg else base) cs
Ordered slide count base ((a, symtab stroff symoff) ∷ cs) = (base ≢ 0) × Ordered slide count base cs
Ordered slide count base ((a, _) ∷ cs) = Ordered slide count base cs

-- The base of the file in memory, from all commands.
abbrev pub base_of : Parsing → List (ℕ × Command) → ℕ
base_of p cs = last_of (linkedit_of p.object.slide) p.object.linkedit_base cs

-- What the loop makes of the commands, from the base and the segments at its end.
abbrev summary_with : Parsing → ℕ → List SegmentCommand → List (ℕ × Command) → Parsing
summary_with p base segs cs = record {
  object = record p.object {
    segments = segs;
    linkedit_base = base;
    entry_point = last_of (entry_of p.object.slide) p.object.entry_point cs;
    init_routine = last_of init_of p.object.init_routine cs;
    dynamic_info = last_of dynamic_of p.object.dynamic_info cs;
    dyld_info = last_of dyld_of p.object.dyld_info cs;
  };
  compressed = last_of has_dyld p.compressed cs;
  symbol_table_strings = last_of (strings_of base) p.symbol_table_strings cs;
  symbol_table = last_of (symbols_of base) p.symbol_table cs;
}

abbrev pub summary : Parsing → List (ℕ × Command) → Parsing
summary p cs = summary_with p (base_of p cs) (p.object.segments ++ all_of segment_of cs) cs

-- Once the base is known it stays.
base_settled :
    (slide count base : ℕ) (cs : List (ℕ × Command))
    → Ordered slide count base cs
    → base ≢ 0
    → last_of (linkedit_of slide) base cs ≡ base
unfolding last_of
base_settled slide count base [] h k = refl
base_settled slide count base ((a, segment seg) ∷ cs) h k =
    elim (Bool-cases (is_linkedit seg.name)) [
      | inl y ↦ absurd (k (h.1 y).0)
      | inr n ↦
          let rest : Ordered slide (count + 1) base cs = rw n at (h.2) in
          rw n (base_settled slide (count + 1) base cs rest k)
    ]
base_settled slide count base ((a, unix_thread pc) ∷ cs) h k = base_settled slide count base cs h k
base_settled slide count base ((a, routines init) ∷ cs) h k = base_settled slide count base cs h k
base_settled slide count base ((a, dylib path r) ∷ cs) h k = base_settled slide count base cs h k
base_settled slide count base ((a, symtab st sy) ∷ cs) h k = base_settled slide count base cs h.1 k
base_settled slide count base ((a, dysymtab) ∷ cs) h k = base_settled slide count base cs h k
base_settled slide count base ((a, dyld_info o x y) ∷ cs) h k = base_settled slide count base cs h k
base_settled slide count base ((a, other) ∷ cs) h k = base_settled slide count base cs h k

base_step :
    (slide base a : ℕ) (seg : SegmentCommand)
    → (if is_linkedit seg.name then file_base slide seg else base)
      ≡ elim (linkedit_of slide (a, segment seg)) [ none ↦ base | some b ↦ b ]
base_step slide base a seg = elim (Bool-cases (is_linkedit seg.name)) [
  | inl y ↦ rw y
  | inr n ↦ rw n
]

-- The summary from behind a segment on.
summary-segment :
    (a : ℕ) (seg : SegmentCommand) (cs : List (ℕ × Command)) (p : Parsing)
    → summary (record p { object = add_segment seg p.object }) cs
      ≡ summary p ((a, segment seg) ∷ cs)
unfolding last_of all_of
summary-segment a seg cs p =
    ap
      (λ b.
        summary_with p (last_of (linkedit_of p.object.slide) b cs)
          ((p.object.segments ++ (seg ∷ [])) ++ all_of segment_of cs) cs)
      (base_step p.object.slide p.object.linkedit_base a seg)
    ∙ ap (λ segs. summary_with p (base_of p ((a, segment seg) ∷ cs)) segs cs)
        (append_assoc p.object.segments (seg ∷ []) (all_of segment_of cs))

-- The summary from behind a LC_SYMTAB on, where the base is known.
summary-symtab :
    (a st sy : ℕ) (cs : List (ℕ × Command)) (p : Parsing)
    → base_of p cs ≡ p.object.linkedit_base
    → summary
        (record p {
          object = record p.object { dynamic_info = a };
          symbol_table_strings = (p.object.linkedit_base + st) % word_mod;
          symbol_table = (p.object.linkedit_base + sy) % word_mod;
        })
        cs
      ≡ summary p ((a, symtab st sy) ∷ cs)
unfolding last_of all_of
summary-symtab a st sy cs p e =
    ap
      (λ b. record (summary p ((a, symtab st sy) ∷ cs)) {
        symbol_table_strings = last_of (strings_of (base_of p cs)) ((b + st) % word_mod) cs;
        symbol_table = last_of (symbols_of (base_of p cs)) ((b + sy) % word_mod) cs;
      })
      (sym e)

module _ (load : ℕ → Loader → Result (Loading × Loader)) (im : ℕ) where
  load_dylibs-nil : (s : Loader) → load_dylibs load im [] s ≡ done s
  unfolding load_dylibs
  load_dylibs-nil s = refl

  pub load_dylibs-cons :
      (d : ℕ × Bool) (ds : List (ℕ × Bool)) (s : Loader)
      → load_dylibs load im (d ∷ ds) s ≡ (load_dylibs load im (d ∷ []) s >>= load_dylibs load im ds)
  unfolding load_dylibs
  load_dylibs-cons (path, r) ds s = sym (
      bind_assoc (load path s) _ (load_dylibs load im ds)
      ∙ bind-ap (load path s) _ _
          (λ l. elim (Option-cases l.0.library) [ inl e ↦ rw e | inr (dep, e) ↦ rw e ]))

  -- Where the commands are ordered, the loop loads the libraries of the dylib commands in their order,
  -- and halts or goes on as those loads do.
  pub parse_commands-eq :
      (cs : List (ℕ × Command)) (p : Parsing) (s : Loader)
      → Ordered p.object.slide (length p.object.segments) p.object.linkedit_base cs
      → parse_commands load im cs (p, s)
        ≡ (load_dylibs load im (all_of dylib_of cs) s >>= λ t. done (summary p cs, t))
  unfolding parse_commands last_of all_of
  parse_commands-eq [] p s h = rw (load_dylibs-nil s) (
      ap (λ segs. done (record p { object = record p.object { segments = segs } }, s))
        (sym (append-nil p.object.segments)))
  parse_commands-eq ((a, segment seg) ∷ cs) p s h =
      let room : leb 64 (length p.object.segments) ≡ false = ground (arith, h.0) in
      let p' = record p { object = add_segment seg p.object } in
      let one_more : length p'.object.segments ≡ length p.object.segments + 1 =
        omega (arith, length-append {0} p.object.segments (seg ∷ [])) in
      let ordered : Ordered p.object.slide (length p'.object.segments) p'.object.linkedit_base cs =
        rw one_more h.2 in
      rw room (
        parse_commands-eq cs p' s ordered
        ∙ ap (λ q. load_dylibs load im (all_of dylib_of cs) s >>= λ t. done (q, t))
            (summary-segment a seg cs p))
  parse_commands-eq ((a, unix_thread pc) ∷ cs) p s h =
      parse_commands-eq cs
        (record p { object = record p.object { entry_point = (p.object.slide + pc) % word_mod } }) s
        h
  parse_commands-eq ((a, routines init) ∷ cs) p s h =
      parse_commands-eq cs (record p { object = record p.object { init_routine = some init } }) s h
  parse_commands-eq ((a, dylib path r) ∷ cs) p s h =
      bind_assoc (load_dylibs load im ((path, r) ∷ []) s) _ (parse_commands load im cs)
      ∙ bind-ap (load_dylibs load im ((path, r) ∷ []) s) _ _ (λ t. parse_commands-eq cs p t h)
      ∙ sym (bind_assoc (load_dylibs load im ((path, r) ∷ []) s) _ _)
      ∙ ap (λ m. m >>= λ t. done (summary p cs, t))
          (sym (load_dylibs-cons (path, r) (all_of dylib_of cs) s))
  parse_commands-eq ((a, symtab st sy) ∷ cs) p s h =
      let known : (p.object.linkedit_base == 0) ≡ false = ground (arith, h.0) in
      rw known (
        parse_commands-eq cs _ s h.1
        ∙ ap (λ q. load_dylibs load im (all_of dylib_of cs) s >>= λ t. done (q, t))
            (summary-symtab a st sy cs p
              (base_settled p.object.slide _ p.object.linkedit_base cs h.1 h.0)))
  parse_commands-eq ((a, dysymtab) ∷ cs) p s h =
      parse_commands-eq cs (record p { object = record p.object { dynamic_info = a } }) s h
  parse_commands-eq ((a, dyld_info o x y) ∷ cs) p s h =
      parse_commands-eq cs
        (record p { object = record p.object { dyld_info = some (x, y) }; compressed = true }) s h
  parse_commands-eq ((a, other) ∷ cs) p s h = parse_commands-eq cs p s h
