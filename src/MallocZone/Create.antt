-- ===== src/MallocZone/Create.antt =====
-- Properties of core/malloc_zone.c.
use lib_system_and_linker.Prelude.{
  get_elem?-set_ne, set-set, get_elem?-lt, get_elem?-set_self, ◌≤◌, ℕ_discrete, ◌∙◌, ℕ, zero, suc,
  ◌+◌, ◌<◌, ◌==◌, ◌≡◌, ◌⊎◌, inl, inr, refl, not, if◌then◌else◌, Bool, true, false, Option, none,
  some, List, [], ◌∷◌, get_elem?, set, arith,
}
use native.Mathlib.Nat.{zero-add}
use lib_system_and_linker.OsThread.Outcome.{halts, M, pure, ◌>>=◌, done, unlock_word_lem}
use lib_system_and_linker.MallocZone.{
  no_mspace, malloc_create_zone, OsMemoryZone, Zones, last_available, lock_malloc, unlock_malloc,
}

-- Zone `i` is there and free.
abbrev pub is_free : List OsMemoryZone → ℕ → Bool
is_free zs i = elim (get_elem? zs i) [ none ↦ false | some z ↦ not z.registred ]

-- How many zones are free.
unfoldable pub free_count : List OsMemoryZone → ℕ
free_count [] = 0
free_count (z ∷ zs) = (if z.registred then 0 else 1) + free_count zs

last_available-zero :
    (zs : List OsMemoryZone) (i : ℕ) (osm : Option ℕ)
    → free_count zs ≡ 0
    → last_available zs i osm ≡ osm
unfolding last_available free_count
last_available-zero [] i osm h = refl
last_available-zero (z ∷ zs) i osm h = ground (arith, last_available-zero zs (suc i) osm)

count_cases : (zs : List OsMemoryZone) → (free_count zs ≡ 0) ⊎ (0 < free_count zs)
count_cases zs = ground arith

last_available-some :
    (zs : List OsMemoryZone) (i : ℕ) (osm : Option ℕ)
    → 0 < free_count zs
    → (d : ℕ) × (z : OsMemoryZone) × (last_available zs i osm ≡ some (i + d))
      × (get_elem? zs d ≡ some z)
      × (z.registred ≡ false)
unfolding last_available free_count
last_available-some [] i osm h = absurd (omega arith)
last_available-some (z ∷ zs) i osm h = elim (count_cases zs) [
  | inl none_left ↦
      (0, z, ground (arith, last_available-zero zs (suc i) (some i)), refl, ground arith)
  | inr more ↦
      let osm' : Option ℕ = if z.registred then osm else some i in
      let (d, y, found, g, a) = last_available-some zs (suc i) osm' more in
      (suc d, y, ground (arith, found), g, a)
]

free_count-set :
    (zs : List OsMemoryZone) (d : ℕ) (z y : OsMemoryZone)
    → get_elem? zs d ≡ some z
    → z.registred ≡ false
    → y.registred ≡ true
    → free_count zs ≡ suc (free_count (set zs d y))
unfolding free_count
free_count-set [] d z y g a b = cc
free_count-set (x ∷ zs) zero z y g a b = ground arith
free_count-set (x ∷ zs) (suc d) z y g a b = ground (arith, free_count-set zs d z y)

lock_malloc-free :
    (s : Zones) → s.malloc_lock ≡ 0 → lock_malloc s ≡ done tt (record s { malloc_lock = 1 })
unfolding lock_malloc
lock_malloc-free s h = ground arith

unlock_malloc_lem : (s : Zones) → unlock_malloc s ≡ done tt (record s { malloc_lock = 0 })
unfolding unlock_malloc
unlock_malloc_lem s = unlock_word_lem _ _ s

-- What `malloc_create_zone` leaves when it takes zone `i`.
pub record Created (space flags : ℕ) (s : Zones) (i : ℕ) (t : Zones) : Type 0 where
  pub was_free : is_free s.zones i ≡ true
  pub now_used : is_free t.zones i ≡ false
  pub one_less : free_count s.zones ≡ suc (free_count t.zones)
  pub others :
      (j : ℕ) → get_elem? t.zones j ≡ (if j == i then get_elem? t.zones i else get_elem? s.zones j)
  pub unlocked : t.malloc_lock ≡ 0
  pub same_default : t.default_zone ≡ s.default_zone

module _ (space flags : ℕ) where
  -- The zone as it is left.
  abbrev created : OsMemoryZone → OsMemoryZone
  created z = record {
    has_impls = true;
    memory_space = if flags == no_mspace then z.memory_space else space;
    global_zone = z.global_zone;
    registred = true;
  }

  abbrev after : ℕ → OsMemoryZone → Zones → Zones
  after i z s = record s { malloc_lock = 0; zones = set s.zones i (created z) }

  create-found :
      (s : Zones) (i : ℕ) (z : OsMemoryZone)
      → s.malloc_lock ≡ 0
      → last_available s.zones 0 none ≡ some i
      → get_elem? s.zones i ≡ some z
      → malloc_create_zone space flags s ≡ done i (after i z s)
  unfolding malloc_create_zone
  create-found s i z free found g = ground (
    arith,
    lock_malloc-free s free,
    unlock_malloc_lem (record s { malloc_lock = 1; zones = set s.zones i z' }),
    get_elem?-set_self s.zones i z' (get_elem?-lt s.zones i z g),
    set-set s.zones i z' (created z),
  )
    where
      z' : OsMemoryZone
      z' = record z { registred = true }

  create-full :
      (s : Zones)
      → s.malloc_lock ≡ 0
      → last_available s.zones 0 none ≡ none
      → malloc_create_zone space flags s ≡ halts
  unfolding malloc_create_zone
  create-full s free found = ground (arith, lock_malloc-free s free)

  after-Created :
      (s : Zones) (i : ℕ) (z : OsMemoryZone)
      → get_elem? s.zones i ≡ some z
      → z.registred ≡ false
      → Created space flags s i (after i z s)
  after-Created s i z g a = record {
    was_free = ground arith;
    now_used = ground (arith, self);
    one_less = free_count-set s.zones i z (created z) g a refl;
    others = λ j. elim (ℕ_discrete i j) [
      | yes q ↦ ground arith
      | no q ↦ ground (arith, get_elem?-set_ne s.zones i j (created z) q)
    ];
    unlocked = refl;
    same_default = refl;
  }
    where
      self : get_elem? (set s.zones i (created z)) i ≡ some (created z)
      self = get_elem?-set_self s.zones i (created z) (get_elem?-lt s.zones i z g)

  -- With the lock free, `malloc_create_zone` halts where no zone is free; otherwise it returns a
  -- zone that was free, which is in use now, leaves every other zone and the default zone alone, and
  -- the free zones are one less.
  pub create_zone :
      (s : Zones)
      → s.malloc_lock ≡ 0
      → ((free_count s.zones ≡ 0) × (malloc_create_zone space flags s ≡ halts))
        ⊎ ((i : ℕ) × (t : Zones) × (malloc_create_zone space flags s ≡ done i t)
            × Created space flags s i t)
  create_zone s free = elim (count_cases s.zones) [
    | inl full ↦ inl (full, create-full s free (last_available-zero s.zones 0 none full))
    | inr some_left ↦
        let (d, z, found, g, a) = last_available-some s.zones 0 none some_left in
        inr
          (d, after d z s, create-found s d z free (found ∙ rw zero-add) g, after-Created s d z g a)
  ]

  -- `k` calls of `malloc_create_zone`.
  unfoldable pub create_times : ℕ → M Zones (Unit {0})
  create_times zero = pure tt
  create_times (suc k) = do i ← malloc_create_zone space flags; create_times k

  create_fits :
      (k : ℕ) (s : Zones)
      → s.malloc_lock ≡ 0
      → k ≤ free_count s.zones
      → (t : Zones) × (create_times k s ≡ done tt t) × (free_count t.zones + k ≡ free_count s.zones)
  unfolding create_times
  create_fits zero s free h = (s, refl, omega arith)
  create_fits (suc k) s free h = elim (create_zone s free) [
    | inl (full, e) ↦ absurd (omega arith)
    | inr (i, t, e, c) ↦
        let (u, went, left) = create_fits k t c.unlocked (omega (arith, c.one_less)) in
        (u, ground (arith, e, went), omega (arith, c.one_less))
  ]

  create_too_many :
      (n : ℕ) (s : Zones)
      → s.malloc_lock ≡ 0
      → free_count s.zones ≡ n
      → create_times (suc n) s ≡ halts
  unfolding create_times
  create_too_many zero s free h = elim (create_zone s free) [
    | inl (full, e) ↦ ground (arith, e)
    | inr (i, t, e, c) ↦ absurd (omega (arith, c.one_less))
  ]
  create_too_many (suc n) s free h = elim (create_zone s free) [
    | inl (full, e) ↦ absurd (omega arith)
    | inr (i, t, e, c) ↦
        ground (arith, e, create_too_many n t c.unlocked (omega (arith, c.one_less)))
  ]

  -- With the lock free, as many zones can be created as are free, and each takes one; one more call
  -- halts.
  pub create_capacity :
      (k : ℕ) (s : Zones)
      → s.malloc_lock ≡ 0
      → k ≤ free_count s.zones
      → (t : Zones) × (create_times k s ≡ done tt t)
        × (free_count t.zones + k ≡ free_count s.zones)
        × (create_times (suc (free_count s.zones)) s ≡ halts)
  create_capacity k s free h =
      let (t, went, left) = create_fits k s free h in
      (t, went, left, create_too_many (free_count s.zones) s free refl)
