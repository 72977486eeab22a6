-- ===== src/Linker/Bind/Decode.antt =====
-- What core/lnk_macho.cpp does on the binding opcodes for a table.
use lib_system_and_linker.Prelude.{
  ℕ, zero, suc, ◌-◌, ◌<◌, ◌≡◌, ◌∙◌, refl, ap, Bool-cases, inl, inr, none, some, List, [], ◌∷◌,
  length, arith,
}
use lib_system_and_linker.Linker.Stream.{Result, done, ◌>>=◌}
use lib_system_and_linker.Linker.Stream.Ensures.{bind-ap}
use lib_system_and_linker.Linker.Bind.{
  Opcode, finish, Image, Request, Locals, Mode, run_opcode, bind_loop, run_bind, first_locals,
  non_lazy, weak, lazy, do_bind_symbols, read_bind, read_lazy_bind, read_weak_bind,
}
use lib_system_and_linker.Linker.Bind.Steps.{entry-length, loop-opcode, entry-bound}
use lib_system_and_linker.Linker.Bind.Table.{
  Entry, encode_entry, encode, request_of, AllFit, bind_all, requests,
}

module _ {W : Type 0} (bind : Request → W → Result W) (im : Image) (mode : Mode)
    (byte_of : Opcode → ℕ → ℕ)
    (reads : (op : Opcode) (imm : ℕ) → imm < 16 → im.decode (byte_of op imm) ≡ (op, imm)) where
  loop-encode :
      (rounds : ℕ) (es : List Entry) (s : Locals) (w : W)
      → AllFit im es
      → s.request.addend ≡ 0
      → length (encode byte_of es) < rounds
      → bind_loop bind im mode rounds (encode byte_of es) s w ≡ bind_all bind (requests im es) w
  unfolding encode bind_all run_opcode bind_loop
  loop-encode zero [] s w fit a h = absurd (omega arith)
  loop-encode (suc zero) [] s w fit a h = absurd (omega arith)
  loop-encode (suc (suc rounds)) [] s w fit a h =
      loop-opcode bind im mode byte_of reads (suc rounds) finish 0 [] s w (omega arith) ∙ ended
    where
      ended :
          (run_opcode bind im mode finish 0 [] s w >>= λ r. elim r.0 [
            | none ↦ done r.2
            | some p' ↦ bind_loop bind im mode (suc rounds) p' r.1 r.2
          ])
          ≡ done w
      ended = elim (Bool-cases mode.stops) [ inl y ↦ rw y refl | inr n ↦ rw n refl ]
  loop-encode rounds (e ∷ es) s w (fit_e, fit) a h =
      let long = entry-length byte_of e (encode byte_of es) in
      let n : ℕ = rounds - 5 in
      let five : rounds ≡ suc (suc (suc (suc (suc n)))) = omega (arith, h, long) in
      let (t, b, went) =
        entry-bound bind im mode byte_of reads n e (encode byte_of es) s w fit_e a in
      ap (λ k. bind_loop bind im mode k (encode_entry byte_of e (encode byte_of es)) s w) five
      ∙ went
      ∙ bind-ap (bind (request_of im e) w) _ _
          (λ w'. loop-encode n es t w' fit b (omega (arith, h, long)))

  -- Each of the loops makes the calls of a table, in its order.
  pub run_bind-encode :
      (es : List Entry) (w : W)
      → AllFit im es
      → run_bind bind im mode (encode byte_of es) w ≡ bind_all bind (requests im es) w
  unfolding run_bind
  run_bind-encode es w fit =
      loop-encode (suc (length (encode byte_of es))) es (first_locals bind im mode) w fit refl
        (omega arith)

none_bound : {W : Type 0} (rs : List Request) (w : W) → bind_all (λ r v. done v) rs w ≡ done w
unfolding bind_all
none_bound [] w = refl
none_bound (r ∷ rs) w = none_bound rs w

module _ {W : Type 0} (bind : Request → W → Result W) (im : Image) (byte_of : Opcode → ℕ → ℕ)
    (reads : (op : Opcode) (imm : ℕ) → imm < 16 → im.decode (byte_of op imm) ≡ (op, imm)) where
  bound-encode :
      (es : List Entry) (w : W)
      → AllFit im es
      → read_bind bind im (encode byte_of es) w ≡ bind_all bind (requests im es) w
  unfolding read_bind
  bound-encode = run_bind-encode bind im non_lazy byte_of reads

  lazily_bound-encode :
      (es : List Entry) (w : W)
      → AllFit im es
      → read_lazy_bind bind im (encode byte_of es) w ≡ bind_all bind (requests im es) w
  unfolding read_lazy_bind
  lazily_bound-encode = run_bind-encode bind im (lazy im) byte_of reads

  weakly_bound-encode :
      (es : List Entry) (w : W)
      → AllFit im es
      → read_weak_bind bind im (encode byte_of es) w ≡ done w
  unfolding read_weak_bind
  weakly_bound-encode es w fit =
      run_bind-encode (λ r v. done v) im weak byte_of reads es w fit ∙ none_bound (requests im es) w

  -- On the opcodes for three tables whose entries fit, with bytes that are read as their opcodes, the
  -- calls that `doBindSymbols` ends with call `bind` for each entry of the first table and then for
  -- each of the lazy one, in the tables' order, up to a call that does not return, and for no entry of
  -- the weak one.
  pub symbols_bound :
      (bound weakly lazily : List Entry) (w : W)
      → AllFit im bound
      → AllFit im weakly
      → AllFit im lazily
      → do_bind_symbols bind im
          (encode byte_of bound)
          (encode byte_of weakly)
          (encode byte_of lazily)
          w
        ≡ (bind_all bind (requests im bound) w >>= λ w'. bind_all bind (requests im lazily) w')
  unfolding do_bind_symbols
  symbols_bound bound weakly lazily w f g h = rw (bound-encode bound w f) (
      bind-ap (bind_all bind (requests im bound) w) _ _
        (λ w'. rw (weakly_bound-encode weakly w' g) (lazily_bound-encode lazily w' h)))
