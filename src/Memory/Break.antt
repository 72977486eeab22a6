-- ===== src/Memory/Break.antt =====
-- `sbrk` of core/mem.c.
use lib_system_and_linker.Prelude.{
  ℕ, ◌+◌, ◌%◌, ◌^◌, ◌==◌, ltb, ◌<◌, ◌≤◌, ◌≡◌, ◌∙◌, ap, refl, if◌then◌else◌, arith,
}
use lib_system_and_linker.Memory.{Memory, minus_one, align, sbrk, sbrk_from}

sbrk-known :
    (kernel : ℕ → ℕ) (enomem n : ℕ) (s : Memory)
    → 0 < s.current_break
    → sbrk kernel enomem n s ≡ sbrk_from kernel enomem n s.current_break s
unfolding sbrk
sbrk-known kernel enomem n s h = ap (λ b. sbrk_from kernel enomem n b s) (ground (arith, h))

align-bounds : (b : ℕ) → b + 31 < 2 ^ 32 → (b ≤ align b) × (align b < b + 32) × (align b % 32 ≡ 0)
align-bounds b h = (omega (arith, h), omega (arith, h), omega (arith, h))

sbrk_from-granted :
    (kernel : ℕ → ℕ) (enomem n b : ℕ) (s : Memory)
    → b + n + 32 < minus_one
    → ((end : ℕ) → kernel end ≡ end)
    → sbrk_from kernel enomem n b s ≡ (align b, record s { current_break = align b + n })
unfolding sbrk_from
sbrk_from-granted kernel enomem n b s k grants =
    let fits : (align b + n) % 2 ^ 32 ≡ align b + n = omega (arith, k) in
    let below : align b + n < minus_one = omega (arith, k) in
    rw (fits, grants) (ground (arith, below))

-- With a break that is known and far enough from the end of the address space, two calls of `sbrk`
-- that the kernel grants return two blocks, at multiples of 32, behind the old break, the second behind
-- the first; the break stands behind both.
pub sbrk_regions :
    (first second : ℕ → ℕ) (enomem m n : ℕ) (s : Memory)
    → 0 < s.current_break
    → s.current_break + m + n + 64 < minus_one
    → ((end : ℕ) → first end ≡ end)
    → ((end : ℕ) → second end ≡ end)
    → (p q : ℕ) × (t u : Memory) × (sbrk first enomem m s ≡ (p, t))
      × (sbrk second enomem n t ≡ (q, u))
      × (s.current_break ≤ p)
      × (p + m ≤ q)
      × (u.current_break ≡ q + n)
      × (p % 32 ≡ 0)
      × (q % 32 ≡ 0)
sbrk_regions first second enomem m n s h k grants grants' =
    let b : ℕ = align s.current_break + m in
    let t : Memory = record s { current_break = b } in
    let (low, high, aligned) = align-bounds s.current_break (omega (arith, k)) in
    let (low', high', aligned') = align-bounds b (omega (arith, k, high)) in
    (
      align s.current_break,
      align b,
      t,
      record t { current_break = align b + n },
      sbrk-known first enomem m s h
          ∙ sbrk_from-granted first enomem m s.current_break s (omega (arith, k)) grants,
      sbrk-known second enomem n t (omega (arith, h, low))
          ∙ sbrk_from-granted second enomem n b t (omega (arith, k, high)) grants',
      low,
      low',
      refl,
      aligned,
      aligned',
    )

below_all :
    (x end : ℕ) (s t u : ℕ × Memory)
    → x < end
    → end < 2 ^ 32
    → (if x == minus_one then s else (if ltb x end then t else u)) ≡ t
below_all x end s t u h k = ground (arith, h, k)

sbrk_from-refused :
    (kernel : ℕ → ℕ) (enomem n b : ℕ) (s : Memory)
    → kernel ((align b + n) % 2 ^ 32) < (align b + n) % 2 ^ 32
    → sbrk_from kernel enomem n b s ≡ (minus_one, record { current_break = b; errno = enomem })
unfolding sbrk_from
sbrk_from-refused kernel enomem n b s k = below_all _ _ _ _ _ k (omega arith)

-- With a known break, where the kernel leaves the break below the request `sbrk` returns -1 with ENOMEM
-- in `errno`, and the break is as it was.
pub sbrk_refused :
    (kernel : ℕ → ℕ) (enomem n : ℕ) (s : Memory)
    → 0 < s.current_break
    → kernel ((align s.current_break + n) % 2 ^ 32) < (align s.current_break + n) % 2 ^ 32
    → sbrk kernel enomem n s ≡ (minus_one, record s { errno = enomem })
sbrk_refused kernel enomem n s h k =
    sbrk-known kernel enomem n s h ∙ sbrk_from-refused kernel enomem n s.current_break s k
