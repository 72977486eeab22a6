-- ===== src/Linker/Stream/Ensures.antt =====
-- Rules for the results of core/lnk_util.cpp and of the loops that read its streams.
use mathlib.Core.Path.{subst}
use lib_system_and_linker.Prelude.{
  ℕ, ◌+◌, ◌<◌, ◌≡◌, ◌⊎◌, inl, inr, refl, ltb, leb, Bool-cases, List, [], ◌∷◌, length, arith,
}
use lib_system_and_linker.Linker.Stream.{
  Result, done, halts, spins, strays, ◌>>=◌, uleb_loop, read_uleb128,
}

-- It ends without straying, and with a value only where that has `P`.
abbrev pub Ensures {ℓ} : {A : Type ℓ} → Result A → (A → Type 0) → Type 0
Ensures (done a) P = P a
Ensures halts P = Unit
Ensures spins P = ⊥
Ensures strays P = ⊥

pub Ensures-bind {ℓ κ} :
    {A : Type ℓ} {B : Type κ} (m : Result A) (f : A → Result B) (P : A → Type 0) (Q : B → Type 0)
    → Ensures m P
    → ((a : A) → P a → Ensures (f a) Q)
    → Ensures (m >>= f) Q
Ensures-bind (done a) f P Q h k = k a h
Ensures-bind halts f P Q h k = tt
Ensures-bind spins f P Q h k = absurd h
Ensures-bind strays f P Q h k = absurd h

pub Ensures-cases {ℓ} :
    {A : Type ℓ} (m : Result A) (P : A → Type 0)
    → Ensures m P
    → (m ≡ halts) ⊎ ((a : A) × (m ≡ done a) × P a)
Ensures-cases (done a) P h = inr (a, refl, h)
Ensures-cases halts P h = inl refl
Ensures-cases spins P h = absurd h
Ensures-cases strays P h = absurd h

pub weaken {ℓ} :
    {A : Type ℓ} (m : Result A) (P Q : A → Type 0)
    → Ensures m P
    → ((a : A) → P a → Q a)
    → Ensures m Q
weaken (done a) P Q h k = k a h
weaken halts P Q h k = tt
weaken spins P Q h k = absurd h
weaken strays P Q h k = absurd h

-- A value that is returned has `P`.
abbrev pub Gives {ℓ} : {A : Type ℓ} → Result A → (A → Type 0) → Type 0
Gives (done a) P = P a
Gives halts P = Unit
Gives spins P = Unit
Gives strays P = Unit

pub Gives-bind {ℓ κ} :
    {A : Type ℓ} {B : Type κ} (m : Result A) (f : A → Result B) (P : A → Type 0) (Q : B → Type 0)
    → Gives m P
    → ((a : A) → P a → Gives (f a) Q)
    → Gives (m >>= f) Q
Gives-bind (done a) f P Q h k = k a h
Gives-bind halts f P Q h k = tt
Gives-bind spins f P Q h k = tt
Gives-bind strays f P Q h k = tt

pub Gives-weaken {ℓ} :
    {A : Type ℓ} (m : Result A) (P Q : A → Type 0) → Gives m P → ((a : A) → P a → Q a) → Gives m Q
Gives-weaken (done a) P Q h k = k a h
Gives-weaken halts P Q h k = tt
Gives-weaken spins P Q h k = tt
Gives-weaken strays P Q h k = tt

pub Gives-done {ℓ} :
    {A : Type ℓ} (m : Result A) (a : A) (P : A → Type 0) → Gives m P → m ≡ done a → P a
Gives-done (done b) a P h e = (let same : b ≡ a = cc in subst P same h)
Gives-done halts a P h e = cc
Gives-done spins a P h e = cc
Gives-done strays a P h e = cc

uleb_loop-shorter :
    (bytes : List ℕ) (bit result : ℕ)
    → Ensures (uleb_loop bytes bit result) (λ r. length r.1 < length bytes)
unfolding uleb_loop
uleb_loop-shorter [] bit result = tt
uleb_loop-shorter (b ∷ bytes) bit result = elim (Bool-cases (ltb 63 bit)) [
  | inl long ↦ rw long tt
  | inr fits ↦ elim (Bool-cases (leb 128 b)) [
    | inl more ↦
        rw (fits, more)
          (weaken (uleb_loop bytes (bit + 7) _) _ _ (uleb_loop-shorter bytes (bit + 7) _)
            (λ r h. omega (arith, h)))
    | inr last ↦ rw (fits, last) (omega arith)
  ]
]

-- A number takes a byte at least.
pub read_uleb128-shorter :
    (bytes : List ℕ) → Ensures (read_uleb128 bytes) (λ r. length r.1 < length bytes)
unfolding read_uleb128
read_uleb128-shorter bytes = uleb_loop-shorter bytes 0 0

-- Where the first one returns, the second one returns the same.
abbrev pub Agrees {ℓ} : {A : Type ℓ} → Result A → Result A → Type ℓ
Agrees (done a) r = r ≡ done a
Agrees halts r = Unit
Agrees spins r = Unit
Agrees strays r = Unit

pub Agrees-refl {ℓ} : {A : Type ℓ} (m : Result A) → Agrees m m
Agrees-refl (done a) = refl
Agrees-refl halts = tt
Agrees-refl spins = tt
Agrees-refl strays = tt

pub Agrees-bind {ℓ κ} :
    {A : Type ℓ} {B : Type κ} (m m' : Result A) (f f' : A → Result B)
    → Agrees m m'
    → ((a : A) → Agrees (f a) (f' a))
    → Agrees (m >>= f) (m' >>= f')
Agrees-bind (done a) m' f f' h k = rw h (k a)
Agrees-bind halts m' f f' h k = tt
Agrees-bind spins m' f f' h k = tt
Agrees-bind strays m' f f' h k = tt

pub Agrees-done {ℓ} :
    {A : Type ℓ} (m m' : Result A) (a : A) → Agrees m m' → m ≡ done a → m' ≡ done a
Agrees-done (done b) m' a h e = ground (arith, h)
Agrees-done halts m' a h e = cc
Agrees-done spins m' a h e = cc
Agrees-done strays m' a h e = cc

pub bind_assoc {ℓ κ μ} :
    {A : Type ℓ} {B : Type κ} {C : Type μ} (m : Result A) (f : A → Result B) (g : B → Result C)
    → (m >>= f >>= g) ≡ (m >>= λ a. f a >>= g)
bind_assoc (done a) f g = refl
bind_assoc halts f g = refl
bind_assoc spins f g = refl
bind_assoc strays f g = refl

pub bind-ap {ℓ κ} :
    {A : Type ℓ} {B : Type κ} (m : Result A) (f g : A → Result B)
    → ((a : A) → f a ≡ g a)
    → (m >>= f) ≡ (m >>= g)
bind-ap (done a) f g h = h a
bind-ap halts f g h = refl
bind-ap spins f g h = refl
bind-ap strays f g h = refl
