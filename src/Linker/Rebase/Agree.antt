-- ===== src/Linker/Rebase/Agree.antt =====
-- `rebaseCompressed` of core/lnk_bootstrap.cpp beside `readRebase` of core/lnk_macho.cpp.
use lib_system_and_linker.Prelude.{
  ℕ, zero, suc, ◌+◌, ◌≡◌, refl, leb, ltb, Bool-cases, inl, inr, Option, none, some, List, [], ◌∷◌,
  length,
}
use lib_system_and_linker.Linker.Stream.{done, read_uleb128}
use lib_system_and_linker.Linker.Stream.Ensures.{Agrees, Agrees-refl, Agrees-bind, Agrees-done}
use lib_system_and_linker.Linker.Rebase.{
  Memory, Opcode, finish, set_type_imm, set_segment_and_offset_uleb, add_addr_uleb,
  add_addr_imm_scaled, do_rebase_imm_times, do_rebase_uleb_times, do_rebase_add_addr_uleb,
  do_rebase_uleb_times_skipping_uleb, other, Image, State, halting, printing, forward, rebase_at,
  rebase_one, rebase_times, check_segment, run_opcode, rebase_loop, run_rebase, read_rebase,
  rebase_compressed,
}

module _ (im : Image) where
  at-Agrees : (s : State) → Agrees (rebase_at im halting s) (rebase_at im printing s)
  unfolding rebase_at
  at-Agrees s = elim (Bool-cases (im.is_pointer s.type)) [ inl e ↦ rw e refl | inr e ↦ rw e tt ]

  one-Agrees : (s : State) → Agrees (rebase_one im halting s) (rebase_one im printing s)
  unfolding rebase_one
  one-Agrees s = elim (Bool-cases (leb s.segment_end_address s.address)) [
    | inl e ↦ rw e tt
    | inr e ↦ rw e (at-Agrees s)
  ]

  times-Agrees :
      (count step : ℕ) (s : State)
      → Agrees (rebase_times im halting count step s) (rebase_times im printing count step s)
  unfolding rebase_times
  times-Agrees zero step s = refl
  times-Agrees (suc count) step s =
      Agrees-bind (rebase_one im halting s) (rebase_one im printing s) _ _ (one-Agrees s)
        λ t. times-Agrees count step (forward step t)

  check-Agrees :
      (i : ℕ) (s : State) → Agrees (check_segment im halting i s) (check_segment im printing i s)
  check-Agrees i s = elim (Bool-cases (ltb (length im.segments) i)) [
    | inl e ↦ rw e tt
    | inr e ↦ rw e refl
  ]

  opcode-Agrees :
      (o : Opcode) (imm : ℕ) (p : List ℕ) (s : State)
      → Agrees (run_opcode im halting o imm p s) (run_opcode im printing o imm p s)
  unfolding run_opcode
  opcode-Agrees finish imm p s = refl
  opcode-Agrees set_type_imm imm p s = refl
  opcode-Agrees set_segment_and_offset_uleb imm p s =
      Agrees-bind (check_segment im halting imm s) (check_segment im printing imm s) _ _
        (check-Agrees imm s) λ t. Agrees-refl _
  opcode-Agrees add_addr_uleb imm p s = Agrees-refl _
  opcode-Agrees add_addr_imm_scaled imm p s = refl
  opcode-Agrees do_rebase_imm_times imm p s =
      Agrees-bind (rebase_times im halting imm 4 s) (rebase_times im printing imm 4 s) _ _
        (times-Agrees imm 4 s) λ t. refl
  opcode-Agrees do_rebase_uleb_times imm p s =
      Agrees-bind (read_uleb128 p) (read_uleb128 p) _ _ (Agrees-refl _) λ (count, p').
        Agrees-bind (rebase_times im halting count 4 s) (rebase_times im printing count 4 s) _ _
          (times-Agrees count 4 s) λ t. refl
  opcode-Agrees do_rebase_add_addr_uleb imm p s =
      Agrees-bind (rebase_one im halting s) (rebase_one im printing s) _ _ (one-Agrees s)
        λ t. Agrees-refl _
  opcode-Agrees do_rebase_uleb_times_skipping_uleb imm p s =
      Agrees-bind (read_uleb128 p) (read_uleb128 p) _ _ (Agrees-refl _) λ (count, p').
        Agrees-bind (read_uleb128 p') (read_uleb128 p') _ _ (Agrees-refl _) λ (skip, p'').
          Agrees-bind (rebase_times im halting count (skip + 4) s)
            (rebase_times im printing count (skip + 4) s) _ _ (times-Agrees count (skip + 4) s)
            λ t. refl
  opcode-Agrees other imm p s = tt

  loop-Agrees :
      (rounds : ℕ) (p : List ℕ) (s : State)
      → Agrees (rebase_loop im halting rounds p s) (rebase_loop im printing rounds p s)
  unfolding rebase_loop
  loop-Agrees zero p s = tt
  loop-Agrees (suc rounds) [] s = refl
  loop-Agrees (suc rounds) (b ∷ p) s =
      Agrees-bind (run_opcode im halting (im.decode b).0 (im.decode b).1 p s)
        (run_opcode im printing (im.decode b).0 (im.decode b).1 p s) _ _
        (opcode-Agrees (im.decode b).0 (im.decode b).1 p s)
        λ (rest, t). next rest t (λ p'. loop-Agrees rounds p' t)
    where
      next :
          (rest : Option (List ℕ)) (t : State)
          → ((p' : List ℕ)
              → Agrees (rebase_loop im halting rounds p' t) (rebase_loop im printing rounds p' t))
          → Agrees
              (elim rest [ none ↦ done t | some p' ↦ rebase_loop im halting rounds p' t ])
              (elim rest [ none ↦ done t | some p' ↦ rebase_loop im printing rounds p' t ])
      next none t ih = refl
      next (some p') t ih = ih p'

  -- Where `readRebase` goes through a stream without a halt, `rebaseCompressed` leaves the same memory
  -- and the same address, segment end and type on it.
  pub rebase_compressed-agrees :
      (stream : List ℕ) (m : Memory) (t : State)
      → read_rebase im stream m ≡ done t
      → rebase_compressed im stream m ≡ done t
  unfolding read_rebase rebase_compressed run_rebase
  rebase_compressed-agrees stream m t h =
      Agrees-done _ _ t (loop-Agrees (suc (length stream)) stream _) h
