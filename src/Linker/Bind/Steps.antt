-- ===== src/Linker/Bind/Steps.antt =====
-- One entry of a table of bindings, in the loops of core/lnk_macho.cpp.
use lib_system_and_linker.Prelude.{
  ℕ, suc, ◌+◌, ◌%◌, ◌^◌, ◌<◌, ◌≤◌, ◌≡◌, ◌∙◌, refl, ap, leb, false, none, some, List, [], ◌∷◌, ◌++◌,
  length, length-append, arith,
}
use lib_system_and_linker.Linker.Stream.{Result, done, ◌>>=◌}
use lib_system_and_linker.Linker.Stream.Ensures.{bind_assoc}
use lib_system_and_linker.Linker.Stream.Encode.{uleb}
use lib_system_and_linker.Linker.Stream.RoundTrip.{read_uleb128-small}
use lib_system_and_linker.Linker.Rebase.{load_addr, end_addr, word_mod}
use lib_system_and_linker.Linker.Trie.Tree.{NoZero}
use lib_system_and_linker.Linker.Bind.{
  Opcode, set_dylib_ordinal_uleb, set_symbol_trailing_flags_imm, set_type_imm,
  set_segment_and_offset_uleb, do_bind, Image, Request, Locals, Mode, read_name, forward, bind_one,
  run_opcode, bind_loop,
}
use lib_system_and_linker.Linker.Bind.Table.{Entry, encode_entry, request_of, Fits}

length-behind : (xs ys : List ℕ) → length ys ≤ length (xs ++ ys)
length-behind xs ys = omega (arith, length-append xs ys)

pub entry-length :
    (byte_of : Opcode → ℕ → ℕ) (e : Entry) (p : List ℕ)
    → 5 + length p < length (encode_entry byte_of e p)
entry-length byte_of e p =
    let placed : List ℕ = byte_of do_bind 0 ∷ p in
    let typed : List ℕ =
      byte_of set_type_imm e.type
      ∷ (byte_of set_segment_and_offset_uleb e.segment ∷ (uleb e.offset ++ placed)) in
    let named : List ℕ = byte_of set_symbol_trailing_flags_imm e.flags ∷ (e.name ++ (0 ∷ typed)) in
    omega (
      arith,
      length-behind (uleb e.ordinal) named,
      length-behind e.name (0 ∷ typed),
      length-behind (uleb e.offset) placed,
    )

read_name-zero : (name p : List ℕ) → NoZero name → read_name (name ++ (0 ∷ p)) ≡ done (name, p)
unfolding read_name
read_name-zero [] p z = refl
read_name-zero (c ∷ name) p z = ground (arith, z.0, read_name-zero name p z.1)

abbrev with_name : Locals → ℕ → List ℕ → ℕ → Locals
with_name s ordinal name flags = record s {
  request = record s.request { ordinal = ordinal; name = some name; flags = flags };
}

module _ {W : Type 0} (bind : Request → W → Result W) (im : Image) (mode : Mode)
    (byte_of : Opcode → ℕ → ℕ)
    (reads : (op : Opcode) (imm : ℕ) → imm < 16 → im.decode (byte_of op imm) ≡ (op, imm)) where
  pub loop-opcode :
      (rounds : ℕ) (op : Opcode) (imm : ℕ) (p : List ℕ) (s : Locals) (w : W)
      → imm < 16
      → bind_loop bind im mode (suc rounds) (byte_of op imm ∷ p) s w ≡ (
          run_opcode bind im mode op imm p s w >>= λ r. elim r.0 [
            | none ↦ done r.2
            | some p' ↦ bind_loop bind im mode rounds p' r.1 r.2
          ])
  unfolding bind_loop
  loop-opcode rounds op imm p s w h = rw (reads op imm h) refl

  symbol-read :
      (rounds ordinal flags : ℕ) (name p : List ℕ) (s : Locals) (w : W)
      → ordinal < 2 ^ 32
      → NoZero name
      → flags < 16
      → bind_loop bind im mode
          (suc (suc rounds))
          (byte_of set_dylib_ordinal_uleb 0
            ∷ (uleb ordinal ++ (byte_of set_symbol_trailing_flags_imm flags ∷ (name ++ (0 ∷ p)))))
          s
          w
        ≡ bind_loop bind im mode rounds p (with_name s ordinal name flags) w
  unfolding run_opcode
  symbol-read rounds ordinal flags name p s w o z f =
      loop-opcode (suc rounds) set_dylib_ordinal_uleb 0 _ s w (omega arith)
      ∙ rw
          (read_uleb128-small ordinal
            (byte_of set_symbol_trailing_flags_imm flags ∷ (name ++ (0 ∷ p))) o)
          (loop-opcode rounds set_symbol_trailing_flags_imm flags _ _ w f
            ∙ rw (read_name-zero name p z) refl)

  abbrev with_place : Locals → ℕ → ℕ → ℕ → Locals
  with_place s type segment offset = record {
    request = record s.request {
      type = type;
      address = (load_addr im.rebase segment + offset) % word_mod;
    };
    segment_end_address = end_addr im.rebase segment;
  }

  opcode-bound :
      (rounds : ℕ) (p : List ℕ) (s : Locals) (w : W)
      → s.request.address < s.segment_end_address
      → bind_loop bind im mode (suc rounds) (byte_of do_bind 0 ∷ p) s w
        ≡ (bind s.request w >>= λ w'. bind_loop bind im mode rounds p (forward 4 s) w')
  unfolding run_opcode bind_one
  opcode-bound rounds p s w h =
      let inside : leb s.segment_end_address s.request.address ≡ false = ground arith in
      loop-opcode rounds do_bind 0 p s w (omega arith)
      ∙ rw inside (bind_assoc (bind s.request w) _ _)

  place-bound :
      (rounds type segment offset : ℕ) (p : List ℕ) (s : Locals) (w : W)
      → type < 16
      → segment < 16
      → offset < 2 ^ 32
      → (load_addr im.rebase segment + offset) % word_mod < end_addr im.rebase segment
      → bind_loop bind im mode
          (suc (suc (suc rounds)))
          (byte_of set_type_imm type
            ∷ (byte_of set_segment_and_offset_uleb segment
                ∷ (uleb offset ++ (byte_of do_bind 0 ∷ p))))
          s
          w
        ≡ (bind (with_place s type segment offset).request w >>= λ w'.
            bind_loop bind im mode rounds p (forward 4 (with_place s type segment offset)) w')
  unfolding run_opcode
  place-bound rounds type segment offset p s w t g o inside =
      loop-opcode (suc (suc rounds)) set_type_imm type _ s w t
      ∙ loop-opcode (suc rounds) set_segment_and_offset_uleb segment _ _ w g
      ∙ rw (read_uleb128-small offset (byte_of do_bind 0 ∷ p) o)
          (opcode-bound rounds p (with_place s type segment offset) w inside)

  pub entry-bound :
      (rounds : ℕ) (e : Entry) (p : List ℕ) (s : Locals) (w : W)
      → Fits im e
      → s.request.addend ≡ 0
      → (t : Locals) × (t.request.addend ≡ 0)
        × (bind_loop bind im mode
              (suc (suc (suc (suc (suc rounds)))))
              (encode_entry byte_of e p)
              s
              w
            ≡ (bind (request_of im e) w >>= λ w'. bind_loop bind im mode rounds p t w'))
  entry-bound rounds e p s w (o, t, z, f, g, off, inside) none_added = (
    forward 4 (with_place (with_name s e.ordinal e.name e.flags) e.type e.segment e.offset),
    none_added,
    symbol-read (suc (suc (suc rounds))) e.ordinal e.flags e.name _ s w o z f
        ∙ place-bound rounds e.type e.segment e.offset p (with_name s e.ordinal e.name e.flags) w t
            g off inside
        ∙ ap
            (λ a. bind (record (request_of im e) { addend = a }) w >>= λ w'.
              bind_loop bind im mode rounds p
                (forward 4
                  (with_place (with_name s e.ordinal e.name e.flags) e.type e.segment e.offset))
                w')
            none_added,
  )
