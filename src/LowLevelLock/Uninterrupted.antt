-- ===== src/LowLevelLock/Uninterrupted.antt =====
-- Schedules of core/LowLevelLock.c in which no thread runs while another is inside the loop of
-- `OSAtomicExchange`, and what every state on such a schedule satisfies.
use lib_system_and_linker.Prelude.{ℕ, ◌<◌, ◌≡◌, ◌≢◌, refl, Bool, true, false, arith}
use lib_system_and_linker.LowLevelLock.Threads.{
  Pc, held, read, swap, wake, update, Move, lock, exchange_swap, System, after, free, exchanges,
}

pub data SoloStep (n : ℕ) (s : System) : System → Type 0 where
  step :
      (i : ℕ) {word : ℕ} {p : Pc}
      → i < n
      → ((j : ℕ) → j ≢ i → exchanges (s.pc j) ≡ false)
      → Move s.word (s.pc i) word p
      → SoloStep n s (after s i word p)

pub data SoloReach (n : ℕ) : System → Type 0 where
  start : SoloReach n free
  later : {s t : System} → SoloReach n s → SoloStep n s t → SoloReach n t

-- The thread has the lock, or is inside `lll_unlock`.
abbrev pub inside : Pc → Bool
inside held = true
inside read = true
inside (swap _) = true
inside _ = false

pub record Inv (s : System) : Type 0 where
  pub alone : (i j : ℕ) → inside (s.pc i) ≡ true → inside (s.pc j) ≡ true → i ≡ j
  pub taken : (i : ℕ) → s.pc i ≡ held → s.word ≢ 0
  pub fresh : (i v : ℕ) → s.pc i ≡ swap v → s.word ≡ v
  pub quiet : (i : ℕ) → s.pc i ≢ wake

module _ {s : System} (inv : Inv s) (i : ℕ)
    (others : (j : ℕ) → j ≢ i → exchanges (s.pc j) ≡ false) where
  open inv use {alone, taken, fresh, quiet}

  Move-alone :
      {p q : Pc} {w : ℕ}
      → Move s.word p w q
      → s.pc i ≡ p
      → (a b : ℕ) → inside (update s.pc i q a) ≡ true
      → inside (update s.pc i q b) ≡ true
      → a ≡ b
  Move-alone lock e a b ha hb = ground (arith, alone a b, others a, others b, taken a, taken b)
  Move-alone mv e a b ha hb =
      ground (arith, alone a b, others a, others b, taken a, taken b, alone i a, alone i b)

  Move-taken :
      {p q : Pc} {w : ℕ}
      → Move s.word p w q
      → s.pc i ≡ p
      → (a : ℕ) → update s.pc i q a ≡ held
      → w ≢ 0
  Move-taken lock e a h = ground (arith, taken a)
  Move-taken mv e a h = ground (arith, taken a, alone i a)

  Move-fresh :
      {p q : Pc} {w : ℕ}
      → Move s.word p w q
      → s.pc i ≡ p
      → (a v : ℕ) → update s.pc i q a ≡ swap v
      → w ≡ v
  Move-fresh lock e a v h = ground (arith, fresh a v, others a)
  Move-fresh mv e a v h = ground (arith, fresh a v, others a)

  Move-quiet :
      {p q : Pc} {w : ℕ} → Move s.word p w q → s.pc i ≡ p → (a : ℕ) → update s.pc i q a ≢ wake
  Move-quiet (exchange_swap {oldval}) e a h = ground (arith, quiet a, fresh i oldval)
  Move-quiet mv e a h = ground (arith, quiet a)

pub SoloStep-Inv : {n : ℕ} {s t : System} → SoloStep n s t → Inv s → Inv t
SoloStep-Inv (step i lt others mv) inv = record {
  alone = Move-alone inv i others mv refl;
  taken = Move-taken inv i others mv refl;
  fresh = Move-fresh inv i others mv refl;
  quiet = Move-quiet inv i others mv refl;
}

pub SoloReach-Inv : {n : ℕ} {s : System} → SoloReach n s → Inv s
SoloReach-Inv start = record {
  alone = λ i j h k. cc;
  taken = λ i h. cc;
  fresh = λ i v h. cc;
  quiet = λ i h. cc;
}
SoloReach-Inv (later r st) = SoloStep-Inv st (SoloReach-Inv r)
