-- ===== src/Linker/Rebase/Bounds.antt =====
-- How far up `readRebase` of core/lnk_macho.cpp writes.
use lib_system_and_linker.Prelude.{
  ℕ, suc, ◌+◌, ◌≤◌, ◌<◌, ◌≡◌, ◌∙◌, ◌⊎◌, refl, leb, ltb, Bool-cases, inl, inr, List, length, arith,
}
use lib_system_and_linker.Linker.Stream.{done, halts}
use lib_system_and_linker.Linker.Stream.Ensures.{Ensures, Ensures-cases}
use lib_system_and_linker.Linker.Rebase.{
  Memory, store_word, Image, State, halting, end_addr, rebase_at, rebase_one, set_segment,
  check_segment, run_rebase, read_rebase,
}
use lib_system_and_linker.Linker.Rebase.Ends.{loop-Good}

store_word-above : (m : Memory) (a v x : ℕ) → a + 3 < x → store_word m a v x ≡ m x
unfolding store_word
store_word-above m a v x h = ground (arith, h)

-- Segment ends up to one entry behind the last reach no further than `top`, and `x` is three bytes
-- further up.
module _ (im : Image) (m : Memory) (top x : ℕ)
    (ends : (i : ℕ) → i ≤ length im.segments → end_addr im i ≤ top) (above : top + 3 ≤ x) where
  abbrev Good : State → Type 0
  Good s = (s.segment_end_address ≤ top) × (s.memory x ≡ m x)

  one-Good : (s : State) → Good s → Ensures (rebase_one im halting s) Good
  unfolding rebase_one rebase_at
  one-Good s g = elim (Bool-cases (leb s.segment_end_address s.address)) [
    | inl behind ↦ rw behind tt
    | inr inside ↦ elim (Bool-cases (im.is_pointer s.type)) [
      | inl e ↦
          rw (inside, e)
            (g.0, store_word-above s.memory s.address _ x (ground (arith, above)) ∙ g.1)
      | inr e ↦ rw (inside, e) tt
    ]
  ]

  segment-Good :
      (i : ℕ) (s : State)
      → Good s
      → Ensures (check_segment im halting i s) (λ t. (n : ℕ) → Good (set_segment im halting i n t))
  segment-Good i s g = elim (Bool-cases (ltb (length im.segments) i)) [
    | inl e ↦ rw e tt
    | inr e ↦ rw e (λ n. (ends i (ground arith), g.1))
  ]

  -- Where every segment ends at `top` or below, the one behind the last entry of the array included,
  -- `readRebase` ends on every stream: it halts, or it leaves all bytes from `top + 3` on as they were.
  pub rebase_bounds :
      (stream : List ℕ)
      → (read_rebase im stream m ≡ halts)
        ⊎ ((t : State) × (read_rebase im stream m ≡ done t) × (t.memory x ≡ m x))
  unfolding read_rebase run_rebase
  rebase_bounds stream =
      elim (Ensures-cases _ Good (
        loop-Good im halting Good one-Good (λ t s g. g) (λ n s g. g) segment-Good (λ s g. tt)
          (suc (length stream)) stream _ (omega arith) (ends 0 (omega arith), refl))) [
            | inl stops ↦ inl stops
            | inr (t, e, g) ↦ inr (t, e, g.1)
          ]
