-- ===== src/Linker/Main/Fits.antt =====
-- What a state of the loads in core/lnk.cpp is to be: dependencies are images of the chain, of a lower
-- rank.
use lib_system_and_linker.Prelude.{
  ℕ, suc, ◌+◌, ◌≤◌, ◌<◌, ◌≡◌, refl, sym, ◌∙◌, Bool, true, false, Bool-cases, inl, inr, some,
  Option-cases, List, [], ◌∷◌, length, arith,
}
use lib_system_and_linker.Linker.Stream.{Result}
use lib_system_and_linker.Linker.Stream.Ensures.{Gives, Gives-bind, Gives-weaken}
use lib_system_and_linker.Linker.Chain.{contains}
use lib_system_and_linker.Linker.Load.{Loaded, Loader, Loading, find_loaded, load_dylibs}
use lib_system_and_linker.Linker.Load.Counts.{unloaded}
use lib_system_and_linker.Linker.Main.{images, no_images, with_dylinker}
use lib_system_and_linker.Linker.Main.Graph.{
  image_rank, SameBelow, Ranked, dylinker, Lowers, AllLower, AllLower-SameBelow,
}

module _ (rank : ℕ → ℕ) (paths : List ℕ) (limit : ℕ) where
  -- The linker's image is the first one, dependencies are images of a lower rank, and the images are
  -- counted; as many as there are and as there are paths to load are within the limit.
  pub record Fits (s : Loader) : Type 0 where
    pub rest : List Loaded
    pub starts : s.chain ≡ dylinker ∷ rest
    pub some_object : 0 < s.next_object
    pub below : (j : ℕ) → contains (images s.chain) j ≡ true → j < s.next_object
    pub lower : AllLower rank s.chain s.next_object s.dependencies
    pub ranked : Ranked rank s.next_object s.chain
    pub counted : s.image_count ≡ length s.chain
    pub room : length s.chain + unloaded paths s.chain ≤ limit

  abbrev pub Later : Loader → Loader → Type 0
  Later s t =
      Fits t × SameBelow rank s.next_object s.chain t.chain × (s.next_object ≤ t.next_object)

  pub Later-refl : (s : Loader) → Fits s → Later s s
  Later-refl s f = (f, (λ j lt. (refl, refl)), omega arith)

  pub Later-trans : (s t u : Loader) → Later s t → Later t u → Later s u
  Later-trans s t u (f, same, le) (f', same', le') = (
    f',
    (λ j lt.
        ((same' j (omega arith)).0 ∙ (same j lt).0, (same' j (omega arith)).1 ∙ (same j lt).1)),
    omega arith,
  )

  -- The linker's image alone, and a new object that is not added to the chain.
  pub alone-Fits : suc (unloaded paths (dylinker ∷ [])) ≤ limit → Fits (with_dylinker no_images)
  unfolding contains find_loaded
  alone-Fits room = record {
    rest = [];
    starts = refl;
    some_object = omega arith;
    below = λ j h. ground (arith, h);
    lower = tt;
    ranked = λ q im h. cc;
    counted = refl;
    room = omega (arith, room);
  }

  abbrev pub new_object : Loader → Loader
  new_object s = record s { next_object = s.next_object + 1 }

  pub new_object-Later : (s : Loader) → Fits s → Later s (new_object s)
  new_object-Later s f = (
    record {
      rest = f.rest;
      starts = f.starts;
      some_object = omega arith;
      below = λ j h. omega (arith, f.below j h);
      lower =
          AllLower-SameBelow rank s.chain s.chain s.next_object (s.next_object + 1) s.dependencies
            (omega arith) (λ j lt. (refl, refl)) f.lower;
      ranked = λ q im h. (let (lt, there, r) = f.ranked q im h in (omega arith, there, r));
      counted = f.counted;
      room = f.room;
    },
    (λ j lt. (refl, refl)),
    omega arith,
  )

  pub outside : (s : Loader) → Fits s → contains (images s.chain) s.next_object ≡ false
  outside s f = elim (Bool-cases (contains (images s.chain) s.next_object)) [
    | inl y ↦ absurd (omega (arith, f.below s.next_object y))
    | inr n ↦ n
  ]

  -- What a load of a path leaves, and the image that it returns.
  abbrev pub Post : ℕ → Loader → Loading × Loader → Type 0
  Post path s (l, t) =
      Later s t
      × ((im : ℕ)
          → l.library ≡ some im
          → (im < t.next_object)
            × (contains (images t.chain) im ≡ true)
            × (image_rank rank t.chain im ≤ suc (rank path)))

  -- The paths are among `paths`, and of a rank below the bound.
  abbrev pub AllBelow : ℕ → List (ℕ × Bool) → Type 0
  AllBelow bound [] = Unit
  AllBelow bound (d ∷ ds) = (contains paths d.0 ≡ true) × (rank d.0 < bound) × AllBelow bound ds

  abbrev pub depend : ℕ → ℕ → Bool → Loader → Loader
  depend im dep re_exported t = record t {
    dependencies = record { image = im; needs = dep; re_exported = re_exported } ∷ t.dependencies;
  }

  pub depend-Fits :
      (im dep : ℕ) (re_exported : Bool) (t : Loader)
      → Fits t
      → Lowers rank t.chain t.next_object
          (record { image = im; needs = dep; re_exported = re_exported })
      → Fits (depend im dep re_exported t)
  depend-Fits im dep re_exported t f l = record {
    rest = f.rest;
    starts = f.starts;
    some_object = f.some_object;
    below = f.below;
    lower = (l, f.lower);
    ranked = f.ranked;
    counted = f.counted;
    room = f.room;
  }

  pub load_dylibs-Later :
      (load : ℕ → Loader → Result (Loading × Loader)) (im bound : ℕ) (ds : List (ℕ × Bool))
      (s : Loader)
      → ((path : ℕ) (t : Loader)
          → contains paths path ≡ true
          → Fits t
          → Gives (load path t) (Post path t))
      → AllBelow bound ds
      → im < s.next_object
      → (contains (images s.chain) im ≡ true → image_rank rank s.chain im ≡ suc bound)
      → Fits s
      → Gives (load_dylibs load im ds s) (Later s)
  unfolding load_dylibs
  load_dylibs-Later load im bound [] s loads below lt top f = Later-refl s f
  load_dylibs-Later load im bound ((path, re_exported) ∷ ds) s loads (here, low, below) lt top f =
      Gives-bind (load path s) _ (Post path s) _ (loads path s here f)
        (λ (l, t) ((f', same, le), found). elim (Option-cases l.library) [
          | inl e ↦ rw e tt
          | inr (dep, e) ↦
              let (lt_dep, there, dep_rank) = found dep e in
              let (same_im, rank_im) = same im lt in
              let f'' = depend-Fits im dep re_exported t f' (
                omega arith,
                lt_dep,
                there,
                (λ c. omega (arith, rank_im, top (sym same_im ∙ c), dep_rank)),
              ) in
              let s_t : Later s (depend im dep re_exported t) = (f'', same, le) in
              rw e (
                Gives-weaken (load_dylibs load im ds (depend im dep re_exported t)) _ _
                  (load_dylibs-Later load im bound ds (depend im dep re_exported t) loads below
                    (omega arith) (λ c. rank_im ∙ top (sym same_im ∙ c)) f'')
                  (λ u. Later-trans s (depend im dep re_exported t) u s_t))
        ])
