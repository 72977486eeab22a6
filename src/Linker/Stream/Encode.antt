-- ===== src/Linker/Stream/Encode.antt =====
-- The uleb128 form of a number, as the format that core/lnk_util.cpp reads has it.
use lib_system_and_linker.Prelude.{ℕ, zero, suc, ◌+◌, ◌/◌, ◌%◌, ltb, if◌then◌else◌, List, [], ◌∷◌}

-- At most `k` bytes with the top bit set, and one without.
unfoldable pub uleb_bytes : ℕ → ℕ → List ℕ
uleb_bytes zero v = v % 128 ∷ []
uleb_bytes (suc k) v = if ltb v 128 then v ∷ [] else (v % 128 + 128) ∷ uleb_bytes k (v / 128)

-- Ten bytes hold 64 bits.
unfoldable pub uleb : ℕ → List ℕ
unfolding uleb_bytes
uleb v = uleb_bytes 9 v
