-- ===== src/Linker/Bind/Table.antt =====
-- Tables of requests, and the binding opcodes for them that core/lnk_macho.cpp reads.
use lib_system_and_linker.Prelude.{ℕ, ◌+◌, ◌%◌, ◌^◌, ◌<◌, some, List, [], ◌∷◌, ◌++◌}
use lib_system_and_linker.Linker.Stream.{Result, done, ◌>>=◌}
use lib_system_and_linker.Linker.Stream.Encode.{uleb}
use lib_system_and_linker.Linker.Rebase.{load_addr, end_addr, word_mod}
use lib_system_and_linker.Linker.Trie.Tree.{NoZero}
use lib_system_and_linker.Linker.Bind.{
  Opcode, finish, set_dylib_ordinal_uleb, set_symbol_trailing_flags_imm, set_type_imm,
  set_segment_and_offset_uleb, do_bind, Image, Request,
}

-- A place in a segment, and the symbol that it is bound to.
pub record Entry : Type 0 where
  pub ordinal : ℕ
  pub type : ℕ
  pub name : List ℕ
  pub flags : ℕ
  pub segment : ℕ
  pub offset : ℕ

-- `byte_of` composes the bytes.
module _ (byte_of : Opcode → ℕ → ℕ) where
  abbrev pub encode_entry : Entry → List ℕ → List ℕ
  encode_entry e p =
      byte_of set_dylib_ordinal_uleb 0
      ∷ (uleb e.ordinal
          ++ (byte_of set_symbol_trailing_flags_imm e.flags
              ∷ (e.name
                  ++ (0
                      ∷ (byte_of set_type_imm e.type
                          ∷ (byte_of set_segment_and_offset_uleb e.segment
                              ∷ (uleb e.offset ++ (byte_of do_bind 0 ∷ p))))))))

  unfoldable pub encode : List Entry → List ℕ
  encode [] = byte_of finish 0 ∷ []
  encode (e ∷ es) = encode_entry e (encode es)

module _ (im : Image) where
  abbrev pub request_of : Entry → Request
  request_of e = record {
    address = (load_addr im.rebase e.segment + e.offset) % word_mod;
    type = e.type;
    name = some e.name;
    flags = e.flags;
    addend = 0;
    ordinal = e.ordinal;
  }

  -- The fields fit the opcodes, and the place is in its segment.
  abbrev pub Fits : Entry → Type 0
  Fits e =
      (e.ordinal < 2 ^ 32)
      × (e.type < 16)
      × NoZero e.name
      × (e.flags < 16)
      × (e.segment < 16)
      × (e.offset < 2 ^ 32)
      × ((request_of e).address < end_addr im.rebase e.segment)

  abbrev pub AllFit : List Entry → Type 0
  AllFit [] = Unit
  AllFit (e ∷ es) = Fits e × AllFit es

-- The calls of `bind` for a table, in its order.
unfoldable pub bind_all : {W : Type 0} → (Request → W → Result W) → List Request → W → Result W
bind_all bind [] w = done w
bind_all bind (r ∷ rs) w = bind r w >>= λ w'. bind_all bind rs w'

abbrev pub requests : Image → List Entry → List Request
requests im [] = []
requests im (e ∷ es) = request_of im e ∷ requests im es
