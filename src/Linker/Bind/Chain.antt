-- ===== src/Linker/Bind/Chain.antt =====
-- `bindChain` of core/lnk.cpp, on images with LC_DYLD_INFO.
use lib_system_and_linker.Prelude.{ℕ, ◌<◌, ◌≡◌, ◌∙◌, refl, List, [], ◌∷◌}
use lib_system_and_linker.Linker.Stream.{Result, done, ◌>>=◌}
use lib_system_and_linker.Linker.Stream.Ensures.{bind_assoc, bind-ap}
use lib_system_and_linker.Linker.Bind.{Opcode, Image, Request, do_bind_symbols}
use lib_system_and_linker.Linker.Bind.Table.{Entry, encode, AllFit, bind_all, requests}
use lib_system_and_linker.Linker.Bind.Decode.{symbols_bound}

-- An image of the chain with its streams of opcodes.
pub record Bindable : Type 0 where
  pub number : ℕ
  pub info : Image
  pub bound : List ℕ
  pub weakly : List ℕ
  pub lazily : List ℕ

-- `bind` goes by the image.
unfoldable pub bind_chain :
    {W : Type 0} → (ℕ → Request → W → Result W) → List Bindable → W → Result W
unfolding do_bind_symbols
bind_chain bind [] w = done w
bind_chain bind (im ∷ ims) w =
    do_bind_symbols (bind im.number) im.info im.bound im.weakly im.lazily w >>= λ w'.
    bind_chain bind ims w'

-- An image with its tables of bindings.
pub record Tables : Type 0 where
  pub number : ℕ
  pub info : Image
  pub bound : List Entry
  pub weakly : List Entry
  pub lazily : List Entry

abbrev pub encoded : (Opcode → ℕ → ℕ) → List Tables → List Bindable
encoded byte_of [] = []
encoded byte_of (t ∷ ts) =
    record {
      number = t.number;
      info = t.info;
      bound = encode byte_of t.bound;
      weakly = encode byte_of t.weakly;
      lazily = encode byte_of t.lazily;
    }
    ∷ encoded byte_of ts

-- The calls of `bind` for the tables, image by image.
unfoldable pub bind_tables :
    {W : Type 0} → (ℕ → Request → W → Result W) → List Tables → W → Result W
unfolding bind_all
bind_tables bind [] w = done w
bind_tables bind (t ∷ ts) w = bind_all (bind t.number) (requests t.info t.bound) w >>= λ w'.
    bind_all (bind t.number) (requests t.info t.lazily) w' >>= λ w''. bind_tables bind ts w''

-- The entries fit, and the image reads the bytes as their opcodes.
abbrev pub AllReadable : (Opcode → ℕ → ℕ) → List Tables → Type 0
AllReadable byte_of [] = Unit
AllReadable byte_of (t ∷ ts) =
    ((op : Opcode) (imm : ℕ) → imm < 16 → t.info.decode (byte_of op imm) ≡ (op, imm))
    × AllFit t.info t.bound
    × AllFit t.info t.weakly
    × AllFit t.info t.lazily
    × AllReadable byte_of ts

-- On images whose opcodes are those for tables, with bytes that are read as their opcodes and entries that
-- fit: `bindChain` calls `bind`, image by image in the chain's order, for each entry of the image's first
-- table and then of its lazy one, in the tables' order, up to a call that does not return, and for no
-- entry of a weak one.
pub chain_bound :
    {W : Type 0} (bind : ℕ → Request → W → Result W) (byte_of : Opcode → ℕ → ℕ) (ts : List Tables)
    (w : W)
    → AllReadable byte_of ts
    → bind_chain bind (encoded byte_of ts) w ≡ bind_tables bind ts w
unfolding bind_chain bind_tables
chain_bound bind byte_of [] w h = refl
chain_bound bind byte_of (t ∷ ts) w (reads, f, g, k, h) =
    rw (symbols_bound (bind t.number) t.info byte_of reads t.bound t.weakly t.lazily w f g k) (
      bind_assoc (bind_all (bind t.number) (requests t.info t.bound) w) _ _
      ∙ bind-ap (bind_all (bind t.number) (requests t.info t.bound) w) _ _ (λ w'.
        bind-ap (bind_all (bind t.number) (requests t.info t.lazily) w') _ _
          (λ w''. chain_bound bind byte_of ts w'' h)))
