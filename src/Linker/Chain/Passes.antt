-- ===== src/Linker/Chain/Passes.antt =====
-- A visit and a pass of `initializeChain` of core/lnk.cpp on a chain without cycles.
use lib_system_and_linker.Prelude.{
  ℕ, suc, ◌-◌, ◌≤◌, ◌<◌, ◌≡◌, inl, inr, refl, true, false, Bool-cases, List, [], ◌∷◌, arith,
}
use lib_system_and_linker.Linker.Chain.{
  pass, suc, contains, dependencies_initialized, State, visit, pass,
}
use lib_system_and_linker.Linker.Chain.Steps.{
  all-intro, contains-cases, contains-cons, contains-head, pending, pending-cons, pending-pos,
  IsOrdered, IsOrdered-contains, circular_count-zero, contains-cases, all-intro,
}

-- `rank` falls from an image of the chain to its dependencies, which are images of the chain too.
module _ (deps : ℕ → List ℕ) (images : List ℕ) (rank : ℕ → ℕ)
    (inside : (x d : ℕ)
      → contains images x ≡ true
      → contains (deps x) d ≡ true
      → contains images d ≡ true)
    (falls : (x d : ℕ)
      → contains images x ≡ true
      → contains (deps x) d ≡ true
      → rank d < rank x) where
  -- Between two visits.
  pub record IsGood (s : State) : Type 0 where
    pub no_cycles : s.ccount ≡ 0
    pub ordered : IsOrdered deps s.called
    pub enough : pending s.called images ≤ s.icount

  -- What a visit or a pass from `s` to `t` keeps.
  pub record Keeps (s t : State) : Type 0 where
    pub good : IsGood t
    pub grows : (x : ℕ) → contains s.called x ≡ true → contains t.called x ≡ true

  no_pair :
      (im d : ℕ)
      → contains images im ≡ true
      → contains (deps im) d ≡ true
      → contains (deps d) im ≡ false
  no_pair im d h k = elim (Bool-cases (contains (deps d) im)) [
    | inl back ↦ absurd (omega (arith, falls im d h k, falls d im (inside im d h k) back))
    | inr none_back ↦ none_back
  ]

  -- A visit with all dependencies initialised leaves the image initialised.
  visit-ready :
      (im : ℕ) (s : State)
      → IsGood s
      → contains images im ≡ true
      → dependencies_initialized s.called (deps im) ≡ true
      → (t : State) × (visit deps im s ≡ (t, false))
        × Keeps s t
        × (contains t.called im ≡ true)
        × (t.has_unitialized_dependencies ≡ s.has_unitialized_dependencies)
  unfolding visit
  visit-ready im s g h ready = elim (Bool-cases (contains s.called im)) [
    | inl old ↦ (s, ground arith, record { good = g; grows = λ x k. k }, old, refl)
    | inr new ↦ (
      record s { called = im ∷ s.called; icount = s.icount - 1 },
      ground arith,
      record {
        good = record {
          no_cycles = g.no_cycles;
          ordered = (ready, g.ordered);
          enough = omega (arith, pending-cons s.called images im h new, g.enough);
        };
        grows = λ x k. contains-cons s.called x im k;
      },
      contains-head s.called im,
      refl,
    )
  ]

  -- Otherwise it asks for another pass and changes nothing else.
  visit-waits :
      (im : ℕ) (s : State)
      → IsGood s
      → contains images im ≡ true
      → dependencies_initialized s.called (deps im) ≡ false
      → visit deps im s ≡ (record s { has_unitialized_dependencies = true }, false)
  unfolding visit
  visit-waits im s g h waits = ground (
    arith,
    circular_count-zero deps (deps im) im (λ d k. no_pair im d h k),
    pending-pos s.called images im h not_called,
    g.enough,
    g.no_cycles,
  )
    where
      not_called : contains s.called im ≡ false
      not_called = elim (Bool-cases (contains s.called im)) [
        | inl old ↦ cc (IsOrdered-contains deps s.called im g.ordered old)
        | inr new ↦ new
      ]

  -- Every image of rank below `r` has run.
  abbrev pub AllBelow : ℕ → State → Type 0
  AllBelow r s = (x : ℕ) → contains images x ≡ true → rank x < r → contains s.called x ≡ true

  abbrev pub AllRun : State → Type 0
  AllRun s = (x : ℕ) → contains images x ≡ true → contains s.called x ≡ true

  -- What a pass over `ims` does.
  pub record Passed (ims : List ℕ) (s t : State) : Type 0 where
    pub keeps : Keeps s t
    pub level :
        (r : ℕ)
        → AllBelow r s
        → (x : ℕ) → contains ims x ≡ true
        → rank x < suc r
        → contains t.called x ≡ true
    pub sticks : s.has_unitialized_dependencies ≡ true → t.has_unitialized_dependencies ≡ true
    pub done :
        t.has_unitialized_dependencies ≡ false
        → (x : ℕ) → contains ims x ≡ true
        → contains t.called x ≡ true
    pub calm :
        AllRun s → s.has_unitialized_dependencies ≡ false → t.has_unitialized_dependencies ≡ false

  level-ready :
      (im r : ℕ) (s : State)
      → contains images im ≡ true
      → AllBelow r s
      → rank im < suc r
      → dependencies_initialized s.called (deps im) ≡ true
  level-ready im r s h below l =
      all-intro s.called (deps im)
        (λ d k. below d (inside im d h k) (omega (arith, falls im d h k)))

  pub pass-Passed :
      (ims : List ℕ) (s : State)
      → IsGood s
      → ((x : ℕ) → contains ims x ≡ true → contains images x ≡ true)
      → (t : State) × (pass deps ims s ≡ (t, false)) × Passed ims s t
  unfolding pass contains
  pass-Passed [] s g within = (
    s,
    refl,
    record {
      keeps = record { good = g; grows = λ x k. k };
      level = λ r below x k l. cc;
      sticks = λ e. e;
      done = λ e x k. cc;
      calm = λ a e. e;
    },
  )
  pass-Passed (im ∷ ims) s g within =
      elim (Bool-cases (dependencies_initialized s.called (deps im))) [
        | inl ready ↦
            let (u, went, keeps, has, same) = visit-ready im s g here ready in
            let (t, rest, p) = pass-Passed ims u keeps.good later in
            (
              t,
              ground (arith, went, rest),
              record {
                keeps = record {
                  good = p.keeps.good;
                  grows = λ x k. p.keeps.grows x (keeps.grows x k);
                };
                level = λ r below x k l. elim (contains-cases ims im x k) [
                  | inl e ↦ rw (← e) (p.keeps.grows im has)
                  | inr m ↦ p.level r (λ y c b. keeps.grows y (below y c b)) x m l
                ];
                sticks = λ e. p.sticks (cc);
                done = λ e x k. elim (contains-cases ims im x k) [
                  | inl q ↦ rw (← q) (p.keeps.grows im has)
                  | inr m ↦ p.done e x m
                ];
                calm = λ a e. p.calm (λ x k. keeps.grows x (a x k)) (cc);
              },
            )
        | inr waits ↦
            let u : State = record s { has_unitialized_dependencies = true } in
            let (t, rest, p) =
              pass-Passed ims u
                (record { no_cycles = g.no_cycles; ordered = g.ordered; enough = g.enough })
                later in
            (
              t,
              ground (arith, visit-waits im s g here waits, rest),
              record {
                keeps = record { good = p.keeps.good; grows = p.keeps.grows };
                level = λ r below x k l. elim (contains-cases ims im x k) [
                  | inl e ↦ absurd (cc (level-ready im r s here below (rw e l)))
                  | inr m ↦ p.level r below x m l
                ];
                sticks = λ e. p.sticks refl;
                done = λ e x k. absurd (cc (p.sticks refl));
                calm = λ a e.
                    absurd (cc (all-intro s.called (deps im) (λ d k. a d (inside im d here k))));
              },
            )
      ]
    where
      here : contains images im ≡ true
      here = within im (contains-head ims im)

      later : (x : ℕ) → contains ims x ≡ true → contains images x ≡ true
      later x k = within x (contains-cons ims x im k)
