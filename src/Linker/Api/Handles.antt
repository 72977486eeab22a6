-- ===== src/Linker/Api/Handles.antt =====
-- `dlopen` and `dlsym` of core/lnk_api.cpp.
use lib_system_and_linker.Prelude.{
  ap, sym, ◌∙◌, inl, inr, Bool-cases, ℕ, suc, ◌+◌, ◌%◌, ◌^◌, ◌<◌, ◌≡◌, ◌≢◌, refl, ◌==◌, ◌||◌,
  if◌then◌else◌, Bool, true, false, Option, none, some, List, [], ◌∷◌, arith,
}
use lib_system_and_linker.Linker.Stream.Ensures.{bind_assoc, bind-ap}
use lib_system_and_linker.Linker.Stream.{Result, done, halts, spins, strays, ◌>>=◌}
use lib_system_and_linker.Linker.Load.{
  Machine, Works, Loader, first_image, load_library, open_library, find_loaded,
}
use lib_system_and_linker.Linker.Chain.{contains}
use lib_system_and_linker.Linker.Load.Once.{Sound, Within, load-present, load_library_once}
use lib_system_and_linker.Linker.Load.Counts.{unloaded}
use lib_system_and_linker.Linker.Resolve.{
  Images, Symbol, symbol_address, find_exported, Resolved, resolve,
}

-- The loader, and the images that `dlopen` has had bind their symbols and initialise, the latest first.
pub record Opened : Type 0 where
  pub loader : Loader
  pub bound : List ℕ
  pub initialized : List ℕ

abbrev is_image : ℕ → Option ℕ → Bool
is_image im none = false
is_image im (some first) = im == first

-- What `doBindSymbols` and `doInitialize` of an image come to are parameters: each may halt.
module _ (bind_symbols do_initialize : ℕ → Result (Unit {0})) where
  -- Behind the call of `loadLibraryEx`, with an image and `already_loaded`. 0 is NULL, another number an
  -- image plus one.
  unfoldable pub opened : ℕ → Bool → Loader → Opened → Result (ℕ × Opened)
  opened im already t w =
      if is_image im (first_image t.chain)
      then done (0, record w { loader = t })
      else (if already
          then done (im + 1, record w { loader = t })
          else (bind_symbols im >>= λ bound. do_initialize im >>= λ initialized. done (
            im + 1,
            record { loader = t; bound = im ∷ w.bound; initialized = im ∷ w.initialized },
          )))

  -- `already_loaded` has no value at first: `garbage` is what it holds. Without an image `dlib` is NULL,
  -- which is `sFirstImage` where the chain is empty.
  unfoldable pub dlopen : Machine → ℕ → Bool → ℕ → Opened → Result (ℕ × Opened)
  unfolding load_library opened
  dlopen m depth garbage path w = load_library m depth path w.loader >>= λ (l, t). elim l.library [
    | none ↦ elim t.chain [ [] ↦ done (0, record w { loader = t }) | x ∷ xs ↦ strays ]
    | some im ↦ opened im (elim l.already_loaded [ none ↦ garbage | some b ↦ b ]) t w
  ]

-- The name behind an underscore.
unfoldable pub dlsym : Images → ℕ → ℕ → List ℕ → Result ℕ
unfolding find_exported symbol_address
dlsym images depth im symbol = find_exported images (b'_' ∷ symbol) depth im >>= λ o. elim o [
  | some sym ↦ symbol_address (images.object sym.in_image) sym.addr
  | none ↦ done 0
]

-- What `resolve` gives for the name with the underscore, where the handle's image is the whole chain; 0
-- where it finds nothing.
abbrev pub found_address : Result Resolved → Result ℕ
found_address r =
    r >>= λ (x : Resolved). elim x.found_image [ none ↦ done 0 | some im ↦ done x.address ]

with_address :
    (images : Images) (im unresolved : ℕ) (o : Option Symbol)
    → found_address (elim o [
      | some x ↦ symbol_address (images.object x.in_image) x.addr >>= λ address.
          done (record { address = address; found_image = some im; unresolved_count = unresolved })
      | none ↦ done (record {
        address = (unresolved + 1) % 2 ^ 32;
        found_image = none;
        unresolved_count = (unresolved + 1) % 2 ^ 32;
      })
    ])
      ≡ (elim o [ some x ↦ symbol_address (images.object x.in_image) x.addr | none ↦ done 0 ])
with_address images im unresolved none = refl
with_address images im unresolved (some x) = kept (symbol_address (images.object x.in_image) x.addr)
  where
    kept :
        (r : Result ℕ)
        → found_address (
            r >>= λ address.
            done
              (record { address = address; found_image = some im; unresolved_count = unresolved }))
          ≡ r
    kept (done a) = refl
    kept halts = refl
    kept spins = refl
    kept strays = refl

-- A handle answers for a name as the linker's own search does through a chain of its image alone.
pub dlsym-resolve :
    (images : Images) (depth im : ℕ) (symbol : List ℕ) (unresolved : ℕ)
    → dlsym images depth im symbol
      ≡ found_address (resolve images (b'_' ∷ symbol) depth (im ∷ []) unresolved)
unfolding dlsym resolve
dlsym-resolve images depth im symbol unresolved = sym (
    bind_assoc (find_exported images (b'_' ∷ symbol) depth im) _ _
    ∙ bind-ap (find_exported images (b'_' ∷ symbol) depth im) _ _
        (with_address images im unresolved))

-- What `opened` leads to where binding and initialising return.
unfoldable handed : ℕ → Bool → Loader → Opened → ℕ × Opened
handed im already t w =
    if is_image im (first_image t.chain)
    then (0, record w { loader = t })
    else (if already then (im + 1, record w { loader = t }) else (
      im + 1,
      record { loader = t; bound = im ∷ w.bound; initialized = im ∷ w.initialized },
    ))

module _ (bind_symbols do_initialize : ℕ → Result (Unit {0}))
    (binds : (im : ℕ) → bind_symbols im ≡ done tt)
    (runs : (im : ℕ) → do_initialize im ≡ done tt) where
  opened-handed :
      (im : ℕ) (already : Bool) (t : Loader) (w : Opened)
      → opened bind_symbols do_initialize im already t w ≡ done (handed im already t w)
  unfolding opened handed
  opened-handed im already t w = elim (Bool-cases (is_image im (first_image t.chain))) [
    | inl y ↦ rw y refl
    | inr n ↦ elim (Bool-cases already) [
      | inl y ↦ rw (n, y) refl
      | inr a ↦ rw (n, a, binds im, runs im) refl
    ]
  ]

  -- A call of `dlopen` for an image that `load_library` returns.
  dlopen-eq :
      (m : Machine) (depth path im : ℕ) (garbage : Bool) (already : Option Bool) (t : Loader)
      (w : Opened)
      → load_library m depth path w.loader
        ≡ done (record { library = some im; already_loaded = already }, t)
      → dlopen bind_symbols do_initialize m depth garbage path w
        ≡ done (handed im (elim already [ none ↦ garbage | some b ↦ b ]) t w)
  unfolding dlopen
  dlopen-eq m depth path im garbage already t w e =
      rw e (opened-handed im (elim already [ none ↦ garbage | some b ↦ b ]) t w)

-- Only the image that is returned is bound, and initialised.
abbrev pub BindsOnly : ℕ → Opened → Opened → Type 0
BindsOnly handle w w' =
    (j : ℕ)
    → j + 1 ≢ handle
    → (contains w'.bound j ≡ contains w.bound j)
      × (contains w'.initialized j ≡ contains w.initialized j)

handed-loader :
    (im : ℕ) (already : Bool) (t : Loader) (w : Opened) → (handed im already t w).1.loader ≡ t
unfolding handed
handed-loader im already t w = ground arith

handed-BindsOnly :
    (im : ℕ) (already : Bool) (t : Loader) (w : Opened)
    → BindsOnly (handed im already t w).0 w (handed im already t w).1
unfolding handed contains
handed-BindsOnly im already t w j other = elim (Bool-cases (is_image im (first_image t.chain))) [
  | inl y ↦ rw y (refl, refl)
  | inr n ↦ elim (Bool-cases already) [
    | inl y ↦ rw (n, y) (refl, refl)
    | inr a ↦
        let not_it : (im == j) ≡ false = ground (arith, other, n, a) in
        rw (n, a, not_it) (refl, refl)
  ]
]

handed-again :
    (im : ℕ) (already : Bool) (t : Loader) (w : Opened)
    → handed im true t (handed im already t w).1 ≡ handed im already t w
unfolding handed
handed-again im already t w = elim (Bool-cases (is_image im (first_image t.chain))) [
  | inl y ↦ rw y refl
  | inr n ↦ elim (Bool-cases already) [ inl y ↦ rw (n, y) refl | inr a ↦ rw (n, a) refl ]
]

module _ (m : Machine) (paths : List ℕ) (has_dylinker : m.dylinker ≢ none)
    (closed : (p file : ℕ)
      → contains paths p ≡ true
      → open_library m p ≡ some file
      → Within paths (m.dylibs file) × Works m file)
    (bind_symbols do_initialize : ℕ → Result (Unit {0}))
    (binds : (im : ℕ) → bind_symbols im ≡ done tt)
    (runs : (im : ℕ) → do_initialize im ≡ done tt) where
  -- A path of a file, where `load_library_once` has its premises, the linker not halting over the files it
  -- loads among them, and `doBindSymbols` and `doInitialize` return: `dlopen` returns, it has at most the
  -- image that it returns bind its symbols and run its initialisers, so not one of the libraries that it
  -- loads for it, and the same call again returns the same and changes nothing.
  pub dlopen_again :
      (depth depth' path : ℕ) (garbage garbage' : Bool) (w : Opened)
      → contains paths path ≡ true
      → Sound w.loader
      → unloaded paths w.loader.chain < depth
      → (path == m.libsystem_path || path == m.libgcc_path) ≡ false
      → open_library m path ≢ none
      → (handle : ℕ) × (w' : Opened) × (dlopen bind_symbols do_initialize m depth garbage path w
          ≡ done (handle, w'))
        × BindsOnly handle w w'
        × (dlopen bind_symbols do_initialize m (suc depth') garbage' path w' ≡ done (handle, w'))
  dlopen_again depth depth' path garbage garbage' w here sound fuel named has_file =
      let (t, im, already, e, sound_t, g, keeps, settled) =
        load_library_once m paths has_dylinker closed depth path w.loader here sound fuel in
      let found : find_loaded path t.chain ≡ some im = elim settled [
        | inl alias ↦ cc
        | inr (inl absent) ↦ absurd (has_file absent)
        | inr (inr s) ↦ s.1
      ] in
      let b : Bool = elim already [ none ↦ garbage | some c ↦ c ] in
      let w' = (handed im b t w).1 in
      let kept : w'.loader ≡ t = handed-loader im b t w in
      let again : load_library m (suc depth') path w'.loader
          ≡ done (record { library = some im; already_loaded = some true }, t) =
        rw kept (load-present m paths has_dylinker closed depth' path t im named found) in
      (
        (handed im b t w).0,
        w',
        dlopen-eq bind_symbols do_initialize binds runs m depth path im garbage already t w e,
        handed-BindsOnly im b t w,
        dlopen-eq bind_symbols do_initialize binds runs m (suc depth') path im garbage' (some true)
              t w' again
            ∙ ap done (handed-again im b t w),
      )
