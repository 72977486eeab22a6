-- ===== src/Linker/Main/Loads.antt =====
-- What the loads of core/lnk.cpp keep: dependencies are images of the chain, of a lower rank.
use mathlib.Core.Path.{subst}
use lib_system_and_linker.Prelude.{
  ℕ, zero, suc, ◌+◌, ◌^◌, ◌≤◌, ◌<◌, ◌≡◌, ◌≢◌, refl, sym, ◌∙◌, ◌==◌, ◌||◌, Bool, true, false,
  Bool-cases, inl, inr, Option, none, some, Option-cases, List, [], ◌∷◌, length, arith,
}
use lib_system_and_linker.Linker.Stream.{done, ◌>>=◌}
use lib_system_and_linker.Linker.Stream.Ensures.{Gives, Gives-bind}
use lib_system_and_linker.Linker.Chain.{contains}
use lib_system_and_linker.Linker.Load.{
  Machine, Works, Loaded, Loader, find_loaded, open_library, load_dylibs, insert_behind,
  load_library,
}
use lib_system_and_linker.Linker.Load.Counts.{
  unloaded, find_loaded-copies, copies-behind, unloaded-lt,
}
use lib_system_and_linker.Linker.Load.Once.{
  Within, load-alias, load-present, load-missing, load-fresh,
}
use lib_system_and_linker.Linker.Main.{images}
use lib_system_and_linker.Linker.Main.Graph.{
  image_rank, SameBelow, SameBelow-behind, image_rank-behind, Ranked, Ranked-behind, dylinker,
  AllLower-SameBelow,
}
use lib_system_and_linker.Linker.Main.Fits.{
  Fits, Later, Later-refl, Later-trans, Post, AllBelow, load_dylibs-Later,
}

unloaded-behind :
    (paths : List ℕ) (path n : ℕ) (first : Loaded) (rest : List Loaded)
    → contains paths path ≡ true
    → find_loaded path (first ∷ rest) ≡ none
    → unloaded paths (first ∷ (record { image = n; orig_path = some path } ∷ rest))
      < unloaded paths (first ∷ rest)
unloaded-behind paths path n first rest here absent =
    let counts = λ (q : ℕ). copies-behind path q n first rest in
    unloaded-lt paths _ _ path (λ q. omega (arith, counts q)) here
      (find_loaded-copies path (first ∷ rest) absent) (ground (arith, counts path))

below-behind :
    (n path : ℕ) (rest : List Loaded)
    → ((j : ℕ) → contains (images (dylinker ∷ rest)) j ≡ true → j < n)
    → (j : ℕ)
    → contains (images (dylinker ∷ (record { image = n; orig_path = some path } ∷ rest))) j ≡ true
    → j < n + 1
unfolding contains
below-behind n path rest below j h = ground (arith, below j)

within_all :
    (rank : ℕ → ℕ) (paths : List ℕ) (limit bound : ℕ) (ds : List (ℕ × Bool))
    → AllBelow rank paths limit bound ds
    → Within paths ds
within_all rank paths limit bound [] h = tt
within_all rank paths limit bound (d ∷ ds) (here, low, h) =
    (here, within_all rank paths limit bound ds h)

-- The libraries that the files behind the paths load are among the paths, of lower ranks.
module _ (rank : ℕ → ℕ) (paths : List ℕ) (limit : ℕ) (m : Machine) (linker : m.dylinker ≡ some 0)
    (small : limit < 2 ^ 32)
    (closed : (p file : ℕ)
      → contains paths p ≡ true
      → open_library m p ≡ some file
      → AllBelow rank paths limit (rank p) (m.dylibs file) × Works m file) where
  pub within :
      (p file : ℕ)
      → contains paths p ≡ true
      → open_library m p ≡ some file
      → Within paths (m.dylibs file) × Works m file
  within p file h e =
      let (below, works) = closed p file h e in
      (within_all rank paths limit (rank p) (m.dylibs file) below, works)

  pub has_dylinker : m.dylinker ≢ none
  has_dylinker e = cc

  first_rank :
      (s : Loader)
      → Fits rank paths limit s
      → (contains (images s.chain) 0 ≡ true) × (image_rank rank s.chain 0 ≡ 0)
  unfolding contains image_rank
  first_rank s f = rw f.starts (refl, refl)

  -- The state in which the commands of a new image are read.
  fresh-Fits :
      (path : ℕ) (s : Loader) (f : Fits rank paths limit s)
      → contains paths path ≡ true
      → find_loaded path s.chain ≡ none
      → Later rank paths limit s (
          insert_behind (record { image = s.next_object; orig_path = some path }) dylinker f.rest s)
  fresh-Fits path s f here absent =
      let same : SameBelow rank s.next_object s.chain
          (dylinker ∷ (record { image = s.next_object; orig_path = some path } ∷ f.rest)) =
        subst
          (λ ls.
            SameBelow rank s.next_object ls
              (dylinker ∷ (record { image = s.next_object; orig_path = some path } ∷ f.rest)))
          (sym f.starts) (SameBelow-behind rank s.next_object path dylinker f.rest) in
      let fewer =
        unloaded-behind paths path s.next_object dylinker f.rest here
          (subst (λ ls. find_loaded path ls ≡ none) f.starts absent) in
      let room : length (dylinker ∷ f.rest) + unloaded paths (dylinker ∷ f.rest) ≤ limit =
        subst (λ ls. length ls + unloaded paths ls ≤ limit) f.starts f.room in
      let count : s.image_count ≡ length (dylinker ∷ f.rest) =
        subst (λ ls. s.image_count ≡ length ls) f.starts f.counted in
      (
        record {
          rest = record { image = s.next_object; orig_path = some path } ∷ f.rest;
          starts = refl;
          some_object = omega arith;
          below = below-behind s.next_object path f.rest (
              subst (λ ls. (j : ℕ) → contains (images ls) j ≡ true → j < s.next_object) f.starts
                f.below);
          lower =
              AllLower-SameBelow rank s.chain _ s.next_object (s.next_object + 1) s.dependencies
                (omega arith) same f.lower;
          ranked =
              Ranked-behind rank s.next_object path f.rest f.some_object
                (subst (λ ls. Ranked rank s.next_object ls) f.starts f.ranked);
          counted = omega (arith, count, room, fewer);
          room = omega (arith, fewer, room);
        },
        same,
        omega arith,
      )

  -- The linker's image is returned for names of libSystem and where there is no file.
  returned_first :
      (path : ℕ) (already : Option Bool) (s : Loader)
      → Fits rank paths limit s
      → Post rank paths limit path s (record { library = some 0; already_loaded = already }, s)
  returned_first path already s f = (
    Later-refl rank paths limit s f,
    λ im e.
        let zero_im : 0 ≡ im = cc in
        let (there, r) = first_rank s f in
        (
          omega (arith, f.some_object),
          subst (λ j. contains (images s.chain) j ≡ true) zero_im there,
          subst (λ j. image_rank rank s.chain j ≤ suc (rank path)) zero_im (omega (arith, r)),
        ),
  )

  rebased-Fits :
      (rebased : List ℕ) (t : Loader)
      → Fits rank paths limit t
      → Fits rank paths limit (record t { rebased = rebased })
  rebased-Fits rebased t f = record {
    rest = f.rest;
    starts = f.starts;
    some_object = f.some_object;
    below = f.below;
    lower = f.lower;
    ranked = f.ranked;
    counted = f.counted;
    room = f.room;
  }

  -- A file that is loaded for the first time.
  fresh-Post :
      (depth path file : ℕ) (s : Loader) (f : Fits rank paths limit s)
      → contains paths path ≡ true
      → find_loaded path s.chain ≡ none
      → open_library m path ≡ some file
      → ((p : ℕ) (t : Loader)
          → contains paths p ≡ true
          → Fits rank paths limit t
          → Gives (load_library m depth p t) (Post rank paths limit p t))
      → Gives
          (load_dylibs (load_library m depth) s.next_object (m.dylibs file) (
              insert_behind
                (record { image = s.next_object; orig_path = some path })
                dylinker
                f.rest
                s)
            >>= λ t. done (
              record { library = some s.next_object; already_loaded = some false },
              record t { rebased = s.next_object ∷ t.rebased },
            ))
          (Post rank paths limit path s)
  fresh-Post depth path file s f here absent there loads =
      let t =
        insert_behind (record { image = s.next_object; orig_path = some path }) dylinker f.rest s in
      let (f_t, same, le) = fresh-Fits path s f here absent in
      let (in_t, rank_t) =
        image_rank-behind rank s.next_object path dylinker f.rest
          (λ z. omega (arith, f.some_object)) in
      Gives-bind (load_dylibs (load_library m depth) s.next_object (m.dylibs file) t) _
        (Later rank paths limit t) (Post rank paths limit path s)
        (load_dylibs-Later rank paths limit (load_library m depth) s.next_object (rank path)
          (m.dylibs file) t loads (closed path file here there).0 (omega arith) (λ c. rank_t) f_t)
        (λ u (f_u, same_u, le_u).
          let (stays, rank_u) = same_u s.next_object (omega arith) in
          let (_, same', le') =
            Later-trans rank paths limit s t u (f_t, same, le) (f_u, same_u, le_u) in
          (
            (rebased-Fits (s.next_object ∷ u.rebased) u f_u, same', le'),
            λ im e.
                let new : s.next_object ≡ im = cc in
                (
                  omega (arith, new, le_u),
                  subst (λ j. contains (images u.chain) j ≡ true) new (stays ∙ in_t),
                  subst (λ j. image_rank rank u.chain j ≤ suc (rank path)) new
                      (omega (arith, rank_u, rank_t)),
                ),
          ))

  pub load_library-Post :
      (depth path : ℕ) (s : Loader)
      → contains paths path ≡ true
      → Fits rank paths limit s
      → Gives (load_library m depth path s) (Post rank paths limit path s)
  unfolding load_library
  load_library-Post zero path s here f = tt
  load_library-Post (suc depth) path s here f =
      elim (Bool-cases (path == m.libsystem_path || path == m.libgcc_path)) [
        | inl alias ↦
            rw (load-alias m paths has_dylinker within depth path s dylinker f.rest f.starts alias)
              (returned_first path none s f)
        | inr named ↦ elim (Option-cases (find_loaded path s.chain)) [
          | inr (im, e) ↦ rw (load-present m paths has_dylinker within depth path s im named e) (
            Later-refl rank paths limit s f,
            λ j eq. let (lt, there, r) = f.ranked path j (e ∙ eq) in (lt, there, omega (arith, r)),
          )
          | inl e ↦ elim (Option-cases (open_library m path)) [
            | inl none_there ↦
                rw
                  (load-missing m paths has_dylinker within depth path s 0 named e none_there
                    linker)
                  (returned_first path (some false) s f)
            | inr (file, there) ↦
                rw
                  (load-fresh m paths has_dylinker within depth path s file dylinker f.rest named e
                    there (closed path file here there).1 f.starts)
                  (fresh-Post depth path file s f here e there (load_library-Post depth))
          ]
        ]
      ]
