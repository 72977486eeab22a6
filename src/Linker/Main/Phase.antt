-- ===== src/Linker/Main/Phase.antt =====
-- The loads of `_main` in core/lnk.cpp end, and what they leave.
use lib_system_and_linker.Prelude.{
  ℕ, suc, ◌^◌, ◌≤◌, ◌<◌, ◌≡◌, ◌⊎◌, refl, sym, ◌∙◌, ◌==◌, ◌||◌, Bool, true, false, inl, inr, Option,
  none, some, List, [], ◌∷◌, arith,
}
use lib_system_and_linker.Linker.Stream.{done}
use lib_system_and_linker.Linker.Stream.Ensures.{Gives-done}
use lib_system_and_linker.Linker.Chain.{contains}
use lib_system_and_linker.Linker.Load.{
  Machine, Works, Loader, open_library, load_dylibs, load_library,
}
use lib_system_and_linker.Linker.Load.Counts.{copies, unloaded, unloaded-le, Grows}
use lib_system_and_linker.Linker.Load.Once.{Sound, load_library_once}
use lib_system_and_linker.Linker.Main.{
  images, Program, no_images, with_dylinker, load_libraries, cas_init, load_phase,
}
use lib_system_and_linker.Linker.Main.Graph.{image_rank}
use lib_system_and_linker.Linker.Main.Fits.{
  Fits, Later, Later-refl, Later-trans, AllBelow, depend, depend-Fits, new_object, new_object-Later,
  outside, Post,
}
use lib_system_and_linker.Linker.Main.Loads.{within, has_dylinker, load_library-Post}

-- All of them are among `paths`.
abbrev pub AllIn : List ℕ → List ℕ → Type 0
AllIn paths [] = Unit
AllIn paths (p ∷ ps) = (contains paths p ≡ true) × AllIn paths ps

abbrev pub cas_paths : Option ℕ → List ℕ
cas_paths none = []
cas_paths (some path) = path ∷ []

abbrev pub dylib_paths : List (ℕ × Bool) → List ℕ
dylib_paths [] = []
dylib_paths (d ∷ ds) = d.0 ∷ dylib_paths ds

-- A name of libSystem or libgcc, a path that no file is behind, or one that the chain has once.
abbrev pub Present : Machine → ℕ → Loader → Type 0
Present m path s =
    ((path == m.libsystem_path || path == m.libgcc_path) ≡ true)
    ⊎ ((open_library m path ≡ none) ⊎ (copies path s.chain ≡ 1))

abbrev pub AllPresent : Machine → List ℕ → Loader → Type 0
AllPresent m [] s = Unit
AllPresent m (p ∷ ps) s = Present m p s × AllPresent m ps s

Present-Grows :
    (m : Machine) (path : ℕ) (s t : Loader)
    → Grows s.chain t.chain
    → Sound t
    → Present m path s
    → Present m path t
Present-Grows m path s t g sound (inl a) = inl a
Present-Grows m path s t g sound (inr (inl n)) = inr (inl n)
Present-Grows m path s t g sound (inr (inr c)) = inr (inr (omega (arith, g path, sound.1 path)))

AllPresent-Grows :
    (m : Machine) (ps : List ℕ) (s t : Loader)
    → Grows s.chain t.chain
    → Sound t
    → AllPresent m ps s
    → AllPresent m ps t
AllPresent-Grows m [] s t g sound h = tt
AllPresent-Grows m (p ∷ ps) s t g sound (here, h) =
    (Present-Grows m p s t g sound here, AllPresent-Grows m ps s t g sound h)

module _ (rank : ℕ → ℕ) (paths : List ℕ) (limit : ℕ) (m : Machine) (linker : m.dylinker ≡ some 0)
    (small : limit < 2 ^ 32)
    (closed : (p file : ℕ)
      → contains paths p ≡ true
      → open_library m p ≡ some file
      → AllBelow rank paths limit (rank p) (m.dylibs file) × Works m file)
    (depth : ℕ) where
  abbrev pub Ready : Loader → Type 0
  Ready s = Fits rank paths limit s × Sound s × (unloaded paths s.chain < depth)

  -- What a part of the loads leads to.
  abbrev pub Reaches : Loader → Loader → Type 0
  Reaches s t = Ready t × Later rank paths limit s t × Grows s.chain t.chain

  Reaches-refl : (s : Loader) → Ready s → Reaches s s
  Reaches-refl s (f, sound, fuel) =
      ((f, sound, fuel), Later-refl rank paths limit s f, λ q. omega arith)

  Reaches-trans : (s t u : Loader) → Reaches s t → Reaches t u → Reaches s u
  Reaches-trans s t u (_, l, g) (r, l', g') =
      (r, Later-trans rank paths limit s t u l l', λ q. omega (arith, g q, g' q))

  load-Reaches :
      (path : ℕ) (s : Loader)
      → contains paths path ≡ true
      → Ready s
      → (t : Loader) × (im : ℕ) × (already : Option Bool) × (load_library m depth path s
          ≡ done (record { library = some im; already_loaded = already }, t))
        × Reaches s t
        × Present m path t
        × ((im < t.next_object)
            × (contains (images t.chain) im ≡ true)
            × (image_rank rank t.chain im ≤ suc (rank path)))
  load-Reaches path s here (f, sound, fuel) =
      let (t, im, already, e, sound_t, g, keeps, settled) =
        load_library_once m paths (has_dylinker rank paths limit m linker small closed)
          (within rank paths limit m linker small closed) depth path s here sound fuel in
      let (later, found) =
        Gives-done (load_library m depth path s) _ (Post rank paths limit path s)
          (load_library-Post rank paths limit m linker small closed depth path s here f) e in
      let present : Present m path t = (elim settled [
        | inl a ↦ inl a
        | inr (inl n) ↦ inr (inl n)
        | inr (inr (c, found_it)) ↦ inr (inr c)
      ]) in
      (
        t,
        im,
        already,
        e,
        ((later.0, sound_t, omega (arith, unloaded-le paths s.chain t.chain g)), later, g),
        present,
        found im refl,
      )

  load_libraries-Reaches :
      (ps : List ℕ) (s : Loader)
      → AllIn paths ps
      → Ready s
      → (t : Loader) × (load_libraries m depth ps s ≡ done t) × Reaches s t × AllPresent m ps t
  unfolding load_libraries
  load_libraries-Reaches [] s here r = (s, refl, Reaches-refl s r, tt)
  load_libraries-Reaches (p ∷ ps) s (here, rest) r =
      let (t, im, already, e, reaches, present, _) = load-Reaches p s here r in
      let (u, e', reaches', presents) = load_libraries-Reaches ps t rest reaches.0 in
      (
        u,
        rw e e',
        Reaches-trans s t u reaches reaches',
        (Present-Grows m p t u reaches'.2 reaches'.0.1 present, presents),
      )

  load_dylibs-Reaches :
      (im bound : ℕ) (ds : List (ℕ × Bool)) (s : Loader)
      → AllBelow rank paths limit bound ds
      → im < s.next_object
      → (contains (images s.chain) im ≡ true → image_rank rank s.chain im ≡ suc bound)
      → Ready s
      → (t : Loader) × (load_dylibs (load_library m depth) im ds s ≡ done t)
        × Reaches s t
        × AllPresent m (dylib_paths ds) t
  unfolding load_dylibs
  load_dylibs-Reaches im bound [] s below lt top r = (s, refl, Reaches-refl s r, tt)
  load_dylibs-Reaches im bound ((p, re_exported) ∷ ds) s (here, low, below) lt top r =
      let (t, dep, already, e, (ready, later, g), present, (lt_dep, there, dep_rank)) =
        load-Reaches p s here r in
      let (same_im, rank_im) = later.1 im lt in
      let f = depend-Fits rank paths limit im dep re_exported t ready.0 (
        omega (arith, later.2),
        lt_dep,
        there,
        (λ c. omega (arith, rank_im, top (sym same_im ∙ c), dep_rank)),
      ) in
      let t' = depend rank paths limit im dep re_exported t in
      let reaches : Reaches s t' = ((f, ready.1, ready.2), (f, later.1, later.2), g) in
      let (u, e', reaches', presents) =
        load_dylibs-Reaches im bound ds t' below (omega (arith, later.2))
          (λ c. rank_im ∙ top (sym same_im ∙ c)) reaches.0 in
      (
        u,
        rw e e',
        Reaches-trans s t' u reaches reaches',
        (Present-Grows m p t' u reaches'.2 reaches'.0.1 present, presents),
      )

  cas_init-Reaches :
      (path : Option ℕ) (s : Loader)
      → AllIn paths (cas_paths path)
      → Ready s
      → (t : Loader) × (cas_init m depth path s ≡ done t)
        × Reaches s t
        × AllPresent m (cas_paths path) t
  cas_init-Reaches none s here r = (s, refl, Reaches-refl s r, tt)
  cas_init-Reaches (some p) s (here, _) r =
      let (t, im, already, e, reaches, present, _) = load-Reaches p s here r in
      (t, rw e refl, reaches, (present, tt))

  -- Behind `cas::init`: the main executable is not in the chain, and its dependencies are.
  pub load_phase-Ready :
      (p : Program) (bound : ℕ)
      → p.linker_dylibs ≡ []
      → p.linker_init ≡ done tt
      → p.main_init ≡ done tt
      → AllIn paths p.aux_paths
      → AllBelow rank paths limit bound p.main_dylibs
      → AllIn paths (cas_paths p.cas_path)
      → Ready (with_dylinker no_images)
      → (n : ℕ) × (s : Loader) × (load_phase m depth p ≡ done (n, s))
        × Ready s
        × (contains (images s.chain) n ≡ false)
        × AllPresent m p.aux_paths s
        × AllPresent m (dylib_paths p.main_dylibs) s
        × AllPresent m (cas_paths p.cas_path) s
  unfolding load_phase load_dylibs
  load_phase-Ready p bound no_dylibs linker_ready main_ready aux below cas r =
      let (t, e, to_t, presents) =
        load_libraries-Reaches p.aux_paths (with_dylinker no_images) aux r in
      let t' = new_object rank paths limit t in
      let (l, same, le) = new_object-Later rank paths limit t to_t.0.0 in
      let out : contains (images t.chain) t.next_object ≡ false =
        outside rank paths limit t to_t.0.0 in
      let (u, e', to_u, presents') =
        load_dylibs-Reaches t.next_object bound p.main_dylibs t' below (omega arith) (λ c. cc)
          (l, to_t.0.1, to_t.0.2) in
      let (v, e'', to_v, presents'') = cas_init-Reaches p.cas_path u cas to_u.0 in
      let to_end = Reaches-trans t' u v to_u to_v in
      let (kept, _) = to_end.1.1 t.next_object (omega arith) in
      (
        t.next_object,
        v,
        rw (no_dylibs, linker_ready, e, e', main_ready, e'') refl,
        to_v.0,
        kept ∙ out,
        AllPresent-Grows m p.aux_paths t v to_end.2 to_v.0.1 presents,
        AllPresent-Grows m (dylib_paths p.main_dylibs) u v to_v.2 to_v.0.1 presents',
        presents'',
      )
