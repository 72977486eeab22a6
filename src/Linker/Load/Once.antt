-- ===== src/Linker/Load/Once.antt =====
-- Loading in core/lnk.cpp ends and loads each path once, also where libraries need each other.
use lib_system_and_linker.Prelude.{
  ℕ, zero, suc, ◌+◌, ◌<◌, ◌≤◌, ◌≡◌, ◌≢◌, ◌⊎◌, ◌==◌, inl, inr, refl, ap, sym, ◌∙◌, ◌||◌,
  if◌then◌else◌, Bool, true, false, Bool-cases, Option, none, some, Option-cases, List, [], ◌∷◌,
  arith,
}
use lib_system_and_linker.Linker.Chain.{contains}
use lib_system_and_linker.Linker.Stream.{Result, done, ◌>>=◌}
use lib_system_and_linker.Linker.Load.{
  Machine, Loaded, Loader, Loading, find_loaded, first_image, open_library, load_dylibs,
  insert_behind, load_library, Works,
}
use lib_system_and_linker.Linker.Load.Counts.{
  copies, unloaded, find_loaded-copies, found-copies, copies-behind, Grows, unloaded-le,
  unloaded-lt,
}

-- There is a first image, and no path stands in the chain twice.
abbrev pub Sound : Loader → Type 0
Sound s = (s.chain ≢ []) × ((q : ℕ) → copies q s.chain ≤ 1)

-- All paths of the commands are among `paths`.
abbrev pub Within : List ℕ → List (ℕ × Bool) → Type 0
Within paths [] = Unit
Within paths (d ∷ ds) = (contains paths d.0 ≡ true) × Within paths ds

chain-parts :
    (ls : List Loaded) → ls ≢ [] → (first : Loaded) × (rest : List Loaded) × (ls ≡ first ∷ rest)
chain-parts [] h = absurd (h refl)
chain-parts (l ∷ ls) h = (l, ls, refl)

at-most-once :
    (path q before after : ℕ)
    → (q ≡ path → before ≡ 0)
    → after ≡ (if q == path then 1 else 0) + before
    → before ≤ 1
    → after ≤ 1
at-most-once path q before after absent h k = ground (arith, absent)

-- What the chain has stays found.
abbrev pub Keeps : List Loaded → List Loaded → Type 0
Keeps ls ls' = (q im : ℕ) → find_loaded q ls ≡ some im → find_loaded q ls' ≡ some im

other_path :
    (q path j : ℕ) (ls : List Loaded)
    → find_loaded path ls ≡ none
    → find_loaded q ls ≡ some j
    → q ≢ path
other_path q path j ls absent found e = cc

Keeps-behind :
    (path im : ℕ) (first : Loaded) (rest : List Loaded)
    → find_loaded path (first ∷ rest) ≡ none
    → Keeps (first ∷ rest) (first ∷ (record { image = im; orig_path = some path } ∷ rest))
unfolding find_loaded
Keeps-behind path im first rest absent q j found =
    ground (arith, found, other_path q path j (first ∷ rest) absent found)

found-behind :
    (path im : ℕ) (first : Loaded) (rest : List Loaded)
    → find_loaded path (first ∷ rest) ≡ none
    → find_loaded path (first ∷ (record { image = im; orig_path = some path } ∷ rest)) ≡ some im
unfolding find_loaded
found-behind path im first rest absent = ground (arith, absent)

module _ (m : Machine) (paths : List ℕ) (has_dylinker : m.dylinker ≢ none)
    (closed : (p file : ℕ)
      → contains paths p ≡ true
      → open_library m p ≡ some file
      → Within paths (m.dylibs file) × Works m file) where
  -- A name of libSystem or libgcc, a path that no file is behind, or one that the chain has once, for
  -- the image `im`.
  abbrev pub Settled : ℕ → ℕ → Loader → Type 0
  Settled path im s =
      ((path == m.libsystem_path || path == m.libgcc_path) ≡ true)
      ⊎ ((open_library m path ≡ none)
          ⊎ ((copies path s.chain ≡ 1) × (find_loaded path s.chain ≡ some im)))

  -- What a load that starts in `s` returns.
  abbrev pub Loads : ℕ → Loader → Result (Loading × Loader) → Type 0
  Loads path s r =
      (t : Loader) × (im : ℕ) × (already : Option Bool) × (r
        ≡ done (record { library = some im; already_loaded = already }, t))
      × Sound t
      × Grows s.chain t.chain
      × Keeps s.chain t.chain
      × Settled path im t

  dylibs-load :
      (load : ℕ → Loader → Result (Loading × Loader)) (im : ℕ) (ds : List (ℕ × Bool)) (s : Loader)
      (bound : ℕ)
      → ((path : ℕ) (t : Loader)
          → contains paths path ≡ true
          → Sound t
          → unloaded paths t.chain < bound
          → Loads path t (load path t))
      → Within paths ds
      → Sound s
      → unloaded paths s.chain < bound
      → (t : Loader) × (load_dylibs load im ds s ≡ done t)
        × Sound t
        × Grows s.chain t.chain
        × Keeps s.chain t.chain
  unfolding load_dylibs
  dylibs-load load im [] s bound loads within sound fuel =
      (s, refl, sound, λ q. omega arith, λ q j e. e)
  dylibs-load load im ((path, re_exported) ∷ ds) s bound loads (here, within) sound fuel =
      let (t, dep, already, e, sound_t, g, keeps, settled) = loads path s here sound fuel in
      let left = unloaded-le paths s.chain t.chain g in
      let t' : Loader = record t {
        dependencies =
            record { image = im; needs = dep; re_exported = re_exported } ∷ t.dependencies;
      } in
      let (u, f, sound_u, g', keeps') =
        dylibs-load load im ds t' bound loads within sound_t (omega arith) in
      (u, rw e f, sound_u, λ q. omega (arith, g q, g' q), λ q j h. keeps' q j (keeps q j h))

  pub load-alias :
      (depth path : ℕ) (s : Loader) (first : Loaded) (rest : List Loaded)
      → s.chain ≡ first ∷ rest
      → (path == m.libsystem_path || path == m.libgcc_path) ≡ true
      → load_library m (suc depth) path s
        ≡ done (record { library = some first.image; already_loaded = none }, s)
  unfolding load_library
  load-alias depth path s first rest chain h =
      let head : first_image s.chain ≡ some first.image = ap first_image chain in
      ground (arith, h, head)

  pub load-present :
      (depth path : ℕ) (s : Loader) (im : ℕ)
      → (path == m.libsystem_path || path == m.libgcc_path) ≡ false
      → find_loaded path s.chain ≡ some im
      → load_library m (suc depth) path s
        ≡ done (record { library = some im; already_loaded = some true }, s)
  unfolding load_library
  load-present depth path s im h e = ground (arith, h, e)

  pub load-missing :
      (depth path : ℕ) (s : Loader) (linker : ℕ)
      → (path == m.libsystem_path || path == m.libgcc_path) ≡ false
      → find_loaded path s.chain ≡ none
      → open_library m path ≡ none
      → m.dylinker ≡ some linker
      → load_library m (suc depth) path s
        ≡ done (record { library = some linker; already_loaded = some false }, s)
  unfolding load_library
  load-missing depth path s linker h e f d = ground (arith, h, e, f, d)

  pub load-fresh :
      (depth path : ℕ) (s : Loader) (file : ℕ) (first : Loaded) (rest : List Loaded)
      → (path == m.libsystem_path || path == m.libgcc_path) ≡ false
      → find_loaded path s.chain ≡ none
      → open_library m path ≡ some file
      → Works m file
      → s.chain ≡ first ∷ rest
      → load_library m (suc depth) path s ≡ (
          load_dylibs
            (load_library m depth)
            s.next_object
            (m.dylibs file)
            (insert_behind (record { image = s.next_object; orig_path = some path }) first rest s)
          >>= λ t. done (
            record { library = some s.next_object; already_loaded = some false },
            record t { rebased = s.next_object ∷ t.rebased },
          ))
  unfolding load_library
  load-fresh depth path s file first rest h e f (made, initialized, moved) chain =
      rw (load_library, h, e, f, made, chain, initialized, moved s.next_object) refl

  -- A file that is loaded for the first time, where the loads of its commands' paths return.
  fresh-Loads :
      (depth path : ℕ) (s : Loader) (file : ℕ) (first : Loaded) (rest : List Loaded)
      → contains paths path ≡ true
      → Sound s
      → unloaded paths s.chain < suc depth
      → s.chain ≡ first ∷ rest
      → (path == m.libsystem_path || path == m.libgcc_path) ≡ false
      → find_loaded path s.chain ≡ none
      → open_library m path ≡ some file
      → ((p : ℕ) (t : Loader)
          → contains paths p ≡ true
          → Sound t
          → unloaded paths t.chain < depth
          → Loads p t (load_library m depth p t))
      → Loads path s (load_library m (suc depth) path s)
  fresh-Loads depth path s file first rest here sound fuel chain named e f loads =
      let t =
        insert_behind (record { image = s.next_object; orig_path = some path }) first rest s in
      let absent = find_loaded-copies path s.chain e in
      let counts : (q : ℕ) → copies q t.chain ≡ (if q == path then 1 else 0) + copies q s.chain =
        λ q.
          copies-behind path q s.next_object first rest
          ∙ ap (λ ls. (if q == path then 1 else 0) + copies q ls) (sym chain) in
      let absent' : find_loaded path (first ∷ rest) ≡ none = rw (sym chain) e in
      let keeps_t : Keeps s.chain t.chain =
        rw chain (Keeps-behind path s.next_object first rest absent') in
      let found = found-behind path s.next_object first rest absent' in
      let grows : Grows s.chain t.chain = λ q. omega (arith, counts q) in
      let once : (q : ℕ) → copies q t.chain ≤ 1 =
        λ q. at-most-once path q (copies q s.chain) _ (λ e'. rw e' absent) (counts q) (sound.1 q) in
      let there : 0 < copies path t.chain = ground (arith, counts path) in
      let fewer = unloaded-lt paths s.chain t.chain path grows here absent there in
      let (u, went, sound_u, g, keeps) =
        dylibs-load (load_library m depth) s.next_object (m.dylibs file) t depth loads
          (closed path file here f).0 (λ z. cc, once) (omega arith) in
      (
        record u { rebased = s.next_object ∷ u.rebased },
        s.next_object,
        some false,
        load-fresh depth path s file first rest named e f (closed path file here f).1 chain
            ∙ ap
                (λ r. r >>= λ v. done (
                  record { library = some s.next_object; already_loaded = some false },
                  record v { rebased = s.next_object ∷ v.rebased },
                ))
                went,
        sound_u,
        λ q. omega (arith, grows q, g q),
        λ q j h. keeps q j (keeps_t q j h),
        inr (inr (omega (arith, g path, sound_u.1 path), keeps path s.next_object found)),
      )

  -- Where `sDylinker` is there, the chain has a first image and no path twice, and the libraries that the
  -- files behind `paths` load are among `paths`, and the linker does not halt over one of these files: a depth of one more than the paths that are not loaded
  -- is enough for a load of one of them, cycles of libraries included. It returns an image, no path
  -- stands in the chain twice, none is lost, each stays with its image, and the path stands in it with the
  -- image that is returned, if it has a file and is not a name of libSystem or libgcc.
  pub load_library_once :
      (depth path : ℕ) (s : Loader)
      → contains paths path ≡ true
      → Sound s
      → unloaded paths s.chain < depth
      → Loads path s (load_library m depth path s)
  load_library_once zero path s here sound fuel = absurd (omega arith)
  load_library_once (suc depth) path s here sound fuel =
      let (first, rest, chain) = chain-parts s.chain sound.0 in
      elim (Bool-cases (path == m.libsystem_path || path == m.libgcc_path)) [
        | inl alias ↦ (
          s,
          first.image,
          none,
          load-alias depth path s first rest chain alias,
          sound,
          λ q. omega arith,
          λ q j h. h,
          inl alias,
        )
        | inr named ↦ elim (Option-cases (find_loaded path s.chain)) [
          | inr (im, e) ↦ (
            s,
            im,
            some true,
            load-present depth path s im named e,
            sound,
            λ q. omega arith,
            λ q j h. h,
            inr (inr (omega (arith, found-copies path im s.chain e, sound.1 path), e)),
          )
          | inl e ↦ elim (Option-cases (open_library m path)) [
            | inl f ↦ elim (Option-cases m.dylinker) [
              | inl n ↦ absurd (has_dylinker n)
              | inr (linker, d) ↦ (
                s,
                linker,
                some false,
                load-missing depth path s linker named e f d,
                sound,
                λ q. omega arith,
                λ q j h. h,
                inr (inl f),
              )
            ]
            | inr (file, f) ↦
                fresh-Loads depth path s file first rest here sound fuel chain named e f
                  (load_library_once depth)
          ]
        ]
      ]
