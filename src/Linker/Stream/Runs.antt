-- ===== src/Linker/Stream/Runs.antt =====
-- The number readers of core/lnk_util.cpp on a small stream.
use lib_system_and_linker.Prelude.{refl, ◌≡◌, [], ◌∷◌, ◌++◌, arith}
use lib_system_and_linker.Linker.Stream.{done, read_uleb128, read_sleb128}
use lib_system_and_linker.Linker.Stream.Encode.{uleb}
use lib_system_and_linker.Linker.Stream.RoundTrip.{read_uleb128-uleb}

-- A number of 33 bits loses its top bit.
read_uleb128-uleb_example : read_uleb128 (uleb 4295591781 ++ (7 ∷ [])) ≡ done (624485, 7 ∷ [])
read_uleb128-uleb_example = read_uleb128-uleb 4295591781 (7 ∷ []) (omega arith)

-- -4 in two bytes.
reads_minus_four : read_sleb128 (0xfc ∷ 0x7f ∷ 9 ∷ []) ≡ done (0xfffffffc, 9 ∷ [])
unfolding read_sleb128
reads_minus_four = refl
