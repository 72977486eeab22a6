-- ===== src/Linker/Stream/RoundTrip.antt =====
-- `read_uleb128` of core/lnk_util.cpp reads what the format means.
use lib_system_and_linker.Prelude.{
  ℕ, zero, suc, ◌+◌, ◌*◌, ◌/◌, ◌%◌, ◌^◌, ◌<◌, ◌≤◌, ◌≡◌, ap, ◌∙◌, ltb, Bool-cases, inl, inr, List,
  ◌∷◌, ◌++◌, arith, bit_or,
}
use native.Mathlib.Nat.{div-add-mod, mod-eq_of_lt}
use native.Mathlib.Numerals.{towards_suc}
use lib_system_and_linker.Prelude.Bits.{bit_or-shifted}
use lib_system_and_linker.Linker.Stream.{done, uleb_loop, read_uleb128}
use lib_system_and_linker.Linker.Stream.Encode.{uleb_bytes, uleb}

seven_more : (s : ℕ) → 2 ^ (s + 7) ≡ 128 * 2 ^ s
seven_more s = simp towards_suc (omega arith)

power_more : (k : ℕ) → 128 ^ suc (suc k) ≡ 128 * 128 ^ suc k
power_more k = omega arith

-- The accumulator behind a group `g`.
group_added :
    (g bit result : ℕ)
    → result < 2 ^ bit
    → result + g * 2 ^ bit < 2 ^ 64
    → bit_or result (g * 2 ^ bit % 2 ^ 64) ≡ result + g * 2 ^ bit
group_added g bit result small fits =
    rw (mod-eq_of_lt {n = g * 2 ^ bit} {m = 2 ^ 64} (omega (arith, fits)))
      (bit_or-shifted bit result g small)

-- The lowest group of `w` and the rest, in their places.
groups_apart : (w s : ℕ) → w * 2 ^ s ≡ w % 128 * 2 ^ s + w / 128 * 2 ^ (s + 7)
groups_apart w s = rw (seven_more s) (omega (arith, ap (λ (t : ℕ). t * 2 ^ s) (div-add-mod w 128)))

still_small : (g bit result : ℕ) → g < 128 → result < 2 ^ bit → result + g * 2 ^ bit < 2 ^ (bit + 7)
still_small g bit result h k = rw (seven_more bit) (grind arith)

last_group :
    (w bit result : ℕ) (rest : List ℕ)
    → w < 128
    → bit ≤ 63
    → result < 2 ^ bit
    → result + w * 2 ^ bit < 2 ^ 64
    → uleb_loop (w ∷ rest) bit result ≡ done ((result + w * 2 ^ bit) % 2 ^ 32, rest)
unfolding uleb_loop
last_group w bit result rest h b small fits =
    ground (arith, mod-eq_of_lt {n = w} {m = 128} h, group_added w bit result)

inner_group :
    (g bit result : ℕ) (rest : List ℕ)
    → g < 128
    → bit ≤ 63
    → result < 2 ^ bit
    → result + g * 2 ^ bit < 2 ^ 64
    → uleb_loop ((g + 128) ∷ rest) bit result ≡ uleb_loop rest (bit + 7) (result + g * 2 ^ bit)
unfolding uleb_loop
inner_group g bit result rest h b small fits =
    let low : (g + 128) % 128 ≡ g = omega arith in ground (arith, low, group_added g bit result)

shorter : (k w : ℕ) → w < 128 ^ suc (suc k) → w / 128 < 128 ^ suc k
shorter k w h = omega (arith, power_more k, h)

loop-uleb_bytes :
    (k w bit result : ℕ) (rest : List ℕ)
    → w < 128 ^ suc k
    → bit + 7 * k ≤ 63
    → result < 2 ^ bit
    → result + w * 2 ^ bit < 2 ^ 64
    → uleb_loop (uleb_bytes k w ++ rest) bit result ≡ done ((result + w * 2 ^ bit) % 2 ^ 32, rest)
unfolding uleb_bytes
loop-uleb_bytes zero w bit result rest h b small fits =
    let same : w % 128 ≡ w = omega (arith, h) in
    rw same (last_group w bit result rest (omega (arith, h)) (omega arith) small fits)
loop-uleb_bytes (suc k) w bit result rest h b small fits = elim (Bool-cases (ltb w 128)) [
  | inl short ↦ rw short (last_group w bit result rest (ground arith) (omega arith) small fits)
  | inr long ↦
      let lower : result + w % 128 * 2 ^ bit < 2 ^ 64 = omega (arith, fits, groups_apart w bit) in
      let all : result + w % 128 * 2 ^ bit + w / 128 * 2 ^ (bit + 7) ≡ result + w * 2 ^ bit =
        omega (arith, groups_apart w bit) in
      let rest_fits : result + w % 128 * 2 ^ bit + w / 128 * 2 ^ (bit + 7) < 2 ^ 64 = rw all fits in
      rw long (
        inner_group (w % 128) bit result (uleb_bytes k (w / 128) ++ rest) (omega arith)
          (omega arith) small lower
        ∙ loop-uleb_bytes k (w / 128) (bit + 7) (result + w % 128 * 2 ^ bit) rest (shorter k w h)
            (omega arith) (still_small (w % 128) bit result (omega arith) small) rest_fits
        ∙ ap (λ n. done (n % 2 ^ 32, rest)) all)
]

-- A uint64_t in uleb128 form is read back, cut to the 32 bits of an uintptr_t, and the stream stands
-- behind it.
pub read_uleb128-uleb :
    (v : ℕ) (rest : List ℕ) → v < 2 ^ 64 → read_uleb128 (uleb v ++ rest) ≡ done (v % 2 ^ 32, rest)
unfolding read_uleb128 uleb
read_uleb128-uleb v rest h =
    loop-uleb_bytes 9 v 0 0 rest (omega (arith, h)) (omega arith) (omega arith) (omega (arith, h))
    ∙ ap (λ n. done (n % 2 ^ 32, rest)) (omega arith)

-- So is an uint32_t, uncut.
pub read_uleb128-small :
    (n : ℕ) (rest : List ℕ) → n < 2 ^ 32 → read_uleb128 (uleb n ++ rest) ≡ done (n, rest)
read_uleb128-small n rest h =
    read_uleb128-uleb n rest (omega (arith, h)) ∙ ap (λ k. done (k, rest)) (omega (arith, h))
