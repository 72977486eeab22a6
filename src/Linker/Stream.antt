-- ===== src/Linker/Stream.antt =====
-- `read_uleb128` and `read_sleb128` of core/lnk_util.cpp. A stream is the list of the bytes from
-- `p` up to `end`.
pub mod Encode
pub mod RoundTrip
pub mod Ensures
mod Runs
use lib_system_and_linker.Prelude.{
  ◌==◌, ℕ, zero, suc, ◌+◌, ◌-◌, ◌*◌, ◌/◌, ◌%◌, ◌^◌, ltb, leb, if◌then◌else◌, Bool, true, false,
  List, [], ◌∷◌, bit_or,
}

-- `halts`: `lnk::halt`. `spins`: the rounds given to a loop were not enough.
-- `strays`: the code reads behind the bytes that the model knows, or shifts too far.
pub data Result {ℓ} (A : Type ℓ) : Type ℓ where
  done : A → Result A
  halts : Result A
  spins : Result A
  strays : Result A

infixl 5 ◌>>=◌
abbrev pub ◌>>=◌ {ℓ κ} : {A : Type ℓ} {B : Type κ} → Result A → (A → Result B) → Result B
done a >>= f = f a
halts >>= f = halts
spins >>= f = spins
strays >>= f = strays

-- The loop of `read_uleb128`: `result` is a uint64_t. What is returned is an uintptr_t of 32 bits, with
-- the stream behind the number.
unfoldable pub uleb_loop : List ℕ → ℕ → ℕ → Result (ℕ × List ℕ)
uleb_loop [] bit result = halts
uleb_loop (b ∷ bytes) bit result =
    let result' : ℕ = bit_or result (b % 128 * 2 ^ bit % 2 ^ 64) in
    let more = uleb_loop bytes (bit + 7) result' in
    if ltb 63 bit then halts else (if leb 128 b then more else done (result' % 2 ^ 32, bytes))

unfoldable pub read_uleb128 : List ℕ → Result (ℕ × List ℕ)
unfolding uleb_loop
read_uleb128 bytes = uleb_loop bytes 0 0

-- The loop of `read_sleb128`, on the 32 bits of its `result` that are returned. A shift of the int by 32
-- bits or more is not defined by the language: there the model ends.
unfoldable pub sleb_loop : List ℕ → ℕ → ℕ → Result (ℕ × List ℕ)
sleb_loop [] bit result = halts
sleb_loop (b ∷ bytes) bit result =
    let result' : ℕ = bit_or result (b % 128 * 2 ^ bit % 2 ^ 32) in
    let more = sleb_loop bytes (bit + 7) result' in
    let sign : ℕ = if b / 64 % 2 == 1 then (2 ^ 64 - 2 ^ (bit + 7)) % 2 ^ 32 else 0 in
    if leb 32 bit then strays else (if leb 128 b then more else done (bit_or result' sign, bytes))

unfoldable pub read_sleb128 : List ℕ → Result (ℕ × List ℕ)
unfolding sleb_loop
read_sleb128 bytes = sleb_loop bytes 0 0
