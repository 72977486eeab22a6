-- ===== src/Linker/Chain/Steps.antt =====
-- Lists of images and one visit of `initializeChain` in core/lnk.cpp.
use lib_system_and_linker.Prelude.{
  ℕ_discrete, ◌⊎◌, inl, inr, ℕ, ◌+◌, ◌≤◌, ◌<◌, ◌≡◌, refl, if◌then◌else◌, true, false, List, [], ◌∷◌,
  arith,
}
use lib_system_and_linker.Linker.Chain.{contains, dependencies_initialized, circular_count, force}

pub contains-cons :
    (called : List ℕ) (x y : ℕ) → contains called x ≡ true → contains (y ∷ called) x ≡ true
unfolding contains
contains-cons called x y h = ground arith

pub contains-head : (called : List ℕ) (x : ℕ) → contains (x ∷ called) x ≡ true
unfolding contains
contains-head called x = ground arith

-- `dependencies_initialized` holds exactly where every dependency is contained.
pub all-contains :
    (called ds : List ℕ) (d : ℕ)
    → dependencies_initialized called ds ≡ true
    → contains ds d ≡ true
    → contains called d ≡ true
unfolding dependencies_initialized
all-contains called [] d h k = cc
all-contains called (x ∷ ds) d h k = ground (arith, all-contains called ds d)

pub all-intro :
    (called ds : List ℕ)
    → ((d : ℕ) → contains ds d ≡ true → contains called d ≡ true)
    → dependencies_initialized called ds ≡ true
unfolding dependencies_initialized
all-intro called [] h = refl
all-intro called (x ∷ ds) h =
    ground
      (arith, h x (contains-head ds x), all-intro called ds (λ d k. h d (contains-cons ds d x k)))

-- The images of the list that have not run `doInitialize`.
unfoldable pub pending : List ℕ → List ℕ → ℕ
pending called [] = 0
pending called (x ∷ xs) = (if contains called x then 0 else 1) + pending called xs

pub pending-cons-le : (called xs : List ℕ) (im : ℕ) → pending (im ∷ called) xs ≤ pending called xs
unfolding pending contains
pending-cons-le called [] im = omega arith
pending-cons-le called (x ∷ xs) im = ground (arith, pending-cons-le called xs im)

pub pending-cons :
    (called xs : List ℕ) (im : ℕ)
    → contains xs im ≡ true
    → contains called im ≡ false
    → pending (im ∷ called) xs < pending called xs
unfolding pending contains
pending-cons called [] im h k = cc
pending-cons called (x ∷ xs) im h k =
    ground (arith, pending-cons-le called xs im, pending-cons called xs im)

pub pending-pos :
    (called xs : List ℕ) (im : ℕ)
    → contains xs im ≡ true
    → contains called im ≡ false
    → 0 < pending called xs
pending-pos called xs im h k = omega (arith, pending-cons called xs im h k)

pub pending-all :
    (called xs : List ℕ) → pending called xs ≡ 0 → dependencies_initialized called xs ≡ true
unfolding pending dependencies_initialized
pending-all called [] h = refl
pending-all called (x ∷ xs) h = ground (arith, pending-all called xs)

-- Forcing a chain that has run adds nothing.
pub force-all :
    (images called : List ℕ)
    → dependencies_initialized called images ≡ true
    → force images called ≡ called
unfolding force dependencies_initialized
force-all [] called h = refl
force-all (x ∷ xs) called h = ground (arith, force-all xs called)

-- The order of initialisation, the latest first: the dependencies of each come before it.
abbrev pub IsOrdered : (ℕ → List ℕ) → List ℕ → Type 0
IsOrdered deps [] = Unit
IsOrdered deps (x ∷ xs) = (dependencies_initialized xs (deps x) ≡ true) × IsOrdered deps xs

pub dependencies-cons :
    (called ds : List ℕ) (x : ℕ)
    → dependencies_initialized called ds ≡ true
    → dependencies_initialized (x ∷ called) ds ≡ true
dependencies-cons called ds x h =
    all-intro (x ∷ called) ds (λ d k. contains-cons called d x (all-contains called ds d h k))

-- Where an image has run, so have its dependencies.
pub IsOrdered-contains :
    (deps : ℕ → List ℕ) (called : List ℕ) (x : ℕ)
    → IsOrdered deps called
    → contains called x ≡ true
    → dependencies_initialized called (deps x) ≡ true
unfolding contains
IsOrdered-contains deps [] x o h = cc
IsOrdered-contains deps (y ∷ ys) x o h = elim (ℕ_discrete y x) [
  | yes e ↦ rw (← e) (dependencies-cons ys (deps y) y o.0)
  | no e ↦ dependencies-cons ys (deps x) y (IsOrdered-contains deps ys x o.1 (ground arith))
]

-- No image of the list depends on `im` directly.
pub circular_count-zero :
    (deps : ℕ → List ℕ) (ds : List ℕ) (im : ℕ)
    → ((d : ℕ) → contains ds d ≡ true → contains (deps d) im ≡ false)
    → circular_count deps ds im ≡ 0
unfolding circular_count
circular_count-zero deps [] im h = refl
circular_count-zero deps (x ∷ ds) im h = ground (
  arith,
  h x (contains-head ds x),
  circular_count-zero deps ds im (λ d k. h d (contains-cons ds d x k)),
)

pub contains-cases :
    (ys : List ℕ) (y x : ℕ) → contains (y ∷ ys) x ≡ true → (y ≡ x) ⊎ (contains ys x ≡ true)
unfolding contains
contains-cases ys y x h = elim (ℕ_discrete y x) [ yes e ↦ inl e | no e ↦ inr (ground arith) ]
