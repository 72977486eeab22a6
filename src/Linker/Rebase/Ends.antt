-- ===== src/Linker/Rebase/Ends.antt =====
-- The loop of the rebase opcodes ends on every stream, and keeps what each fix of a word keeps.
use lib_system_and_linker.Prelude.{
  ℕ, zero, suc, ◌+◌, ◌*◌, ◌≤◌, ◌<◌, Option, none, some, List, [], ◌∷◌, length, arith,
}
use lib_system_and_linker.Linker.Stream.{done, read_uleb128}
use lib_system_and_linker.Linker.Stream.Ensures.{Ensures, Ensures-bind, read_uleb128-shorter}
use lib_system_and_linker.Linker.Rebase.{
  Opcode, finish, set_type_imm, set_segment_and_offset_uleb, add_addr_uleb, add_addr_imm_scaled,
  do_rebase_imm_times, do_rebase_uleb_times, do_rebase_add_addr_uleb,
  do_rebase_uleb_times_skipping_uleb, other, Image, State, OnBad, forward, rebase_one, rebase_times,
  set_segment, check_segment, run_opcode, rebase_loop,
}

-- The bytes left behind an opcode.
abbrev pub left : Option (List ℕ) → ℕ
left none = 0
left (some p) = length p

module _ (im : Image) (on_bad : OnBad) (Good : State → Type 0)
    (keep_one : (s : State) → Good s → Ensures (rebase_one im on_bad s) Good)
    (keep_type : (t : ℕ) (s : State) → Good s → Good (record s { type = t }))
    (keep_forward : (n : ℕ) (s : State) → Good s → Good (forward n s))
    (keep_segment : (i : ℕ) (s : State)
      → Good s
      → Ensures (check_segment im on_bad i s) (λ t. (n : ℕ) → Good (set_segment im on_bad i n t)))
    (keep_opcode : (s : State) → Good s → Ensures (on_bad.opcode s) Good) where
  times-Good :
      (count step : ℕ) (s : State) → Good s → Ensures (rebase_times im on_bad count step s) Good
  unfolding rebase_times
  times-Good zero step s g = g
  times-Good (suc count) step s g =
      Ensures-bind (rebase_one im on_bad s) _ Good Good (keep_one s g)
        λ t h. times-Good count step (forward step t) (keep_forward step t h)

  abbrev After : List ℕ → Option (List ℕ) × State → Type 0
  After p r = Good r.1 × (left r.0 ≤ length p)

  opcode-After :
      (o : Opcode) (imm : ℕ) (p : List ℕ) (s : State)
      → Good s
      → Ensures (run_opcode im on_bad o imm p s) (After p)
  unfolding run_opcode
  opcode-After finish imm p s g = (g, omega arith)
  opcode-After set_type_imm imm p s g = (keep_type imm s g, omega arith)
  opcode-After set_segment_and_offset_uleb imm p s g =
      Ensures-bind (check_segment im on_bad imm s) _ _ _ (keep_segment imm s g) λ t h.
        Ensures-bind (read_uleb128 p) _ _ _ (read_uleb128-shorter p)
          λ (n, p') l. (h n, omega (arith, l))
  opcode-After add_addr_uleb imm p s g =
      Ensures-bind (read_uleb128 p) _ _ _ (read_uleb128-shorter p)
        λ (n, p') h. (keep_forward n s g, omega (arith, h))
  opcode-After add_addr_imm_scaled imm p s g = (keep_forward (imm * 4) s g, omega arith)
  opcode-After do_rebase_imm_times imm p s g =
      Ensures-bind (rebase_times im on_bad imm 4 s) _ _ _ (times-Good imm 4 s g)
        λ t h. (h, omega arith)
  opcode-After do_rebase_uleb_times imm p s g =
      Ensures-bind (read_uleb128 p) _ _ _ (read_uleb128-shorter p) λ (count, p') l.
        Ensures-bind (rebase_times im on_bad count 4 s) _ _ _ (times-Good count 4 s g)
          λ t h. (h, omega (arith, l))
  opcode-After do_rebase_add_addr_uleb imm p s g =
      Ensures-bind (rebase_one im on_bad s) _ _ _ (keep_one s g) λ t h.
        Ensures-bind (read_uleb128 p) _ _ _ (read_uleb128-shorter p)
          λ (n, p') l. (keep_forward (n + 4) t h, omega (arith, l))
  opcode-After do_rebase_uleb_times_skipping_uleb imm p s g =
      Ensures-bind (read_uleb128 p) _ _ _ (read_uleb128-shorter p) λ (count, p') l.
        Ensures-bind (read_uleb128 p') _ _ _ (read_uleb128-shorter p') λ (skip, p'') l'.
          Ensures-bind (rebase_times im on_bad count (skip + 4) s) _ _ _
            (times-Good count (skip + 4) s g) λ t h. (h, omega (arith, l, l'))
  opcode-After other imm p s g =
      Ensures-bind (on_bad.opcode s) _ _ _ (keep_opcode s g) λ t h. (h, omega arith)

  next-Good :
      (rounds limit : ℕ) (rest : Option (List ℕ)) (t : State)
      → ((p : List ℕ) → length p ≤ limit → Ensures (rebase_loop im on_bad rounds p t) Good)
      → Good t
      → left rest ≤ limit
      → Ensures (elim rest [ none ↦ done t | some p ↦ rebase_loop im on_bad rounds p t ]) Good
  next-Good rounds limit none t ih g l = g
  next-Good rounds limit (some p) t ih g l = ih p l

  -- A round takes a byte at least.
  pub loop-Good :
      (rounds : ℕ) (p : List ℕ) (s : State)
      → length p < rounds
      → Good s
      → Ensures (rebase_loop im on_bad rounds p s) Good
  unfolding rebase_loop
  loop-Good zero p s h g = absurd (omega arith)
  loop-Good (suc rounds) [] s h g = g
  loop-Good (suc rounds) (b ∷ p) s h g =
      Ensures-bind (run_opcode im on_bad (im.decode b).0 (im.decode b).1 p s) _ (After p) Good
        (opcode-After (im.decode b).0 (im.decode b).1 p s g)
        λ (rest, t) (h', l).
          next-Good rounds (length p) rest t
            (λ p' l'. loop-Good rounds p' t (omega (arith, h, l')) h') h' l
