-- ===== src/Linker/Bootstrap.antt =====
-- `rebaseLinker`, `slideOfMainExecutable` and `start` of core/lnk_bootstrap.cpp: how the linker starts.
pub mod Agree
mod Runs
use lib_system_and_linker.Prelude.{
  ℕ, zero, suc, ◌+◌, ◌-◌, ◌%◌, ◌^◌, ◌==◌, leb, if◌then◌else◌, Bool, true, false, Option, none, some,
  List, [], ◌∷◌, ◌++◌, length,
}
use lib_system_and_linker.Linker.Stream.{Result, done, halts, strays, ◌>>=◌}
use lib_system_and_linker.Linker.Rebase.{Memory, word_mod, rebase_compressed}
use lib_system_and_linker.Linker.Commands.{
  SegmentName, text, SegmentCommand, Command, segment, dyld_info, Commands, read_commands,
  file_base, is_linkedit,
}
use lib_system_and_linker.Linker.Classic.{Format, opcode_stream, spans, rebase_image}

-- The variables of the loop over the linker's own commands; `rebase` has `rebase_off` and `rebase_size`
-- of `dyldInfo`.
pub record Found : Type 0 where
  pub segments : List SegmentCommand
  pub linkedit : Option SegmentCommand
  pub rebase : Option (ℕ × ℕ)

abbrev pub see_segment : SegmentCommand → Found → Found
see_segment seg f = record f {
  segments = f.segments ++ (seg ∷ []);
  linkedit = if is_linkedit seg.name then some seg else f.linkedit;
}

-- The array has 64 places.
unfoldable pub find_commands : List (ℕ × Command) → Found → Result Found
find_commands [] f = done f
find_commands ((a, segment seg) ∷ cs) f =
    let rest = find_commands cs (see_segment seg f) in
    if leb 64 (length f.segments) then strays else rest
find_commands ((a, dyld_info only off size) ∷ cs) f =
    find_commands cs (if only then record f { rebase = some (off, size) } else f)
find_commands ((a, _) ∷ cs) f = find_commands cs f

-- Without LC_DYLD_INFO_ONLY there is a message, and `_printAbrt` returns. A linker without __LINKEDIT
-- reads through NULL.
unfoldable pub rebase_found : Format → ℕ → Found → Memory → Result Memory
unfolding opcode_stream spans
rebase_found format slide f m = elim f.rebase [
  | none ↦ done m
  | some info ↦ elim f.linkedit [
    | none ↦ strays
    | some seg ↦
        rebase_compressed (rebase_image format slide f.segments)
          (opcode_stream m (file_base slide seg) info) m
        >>= λ s. done s.memory
  ]
]

abbrev pub nothing_found : Found
nothing_found = record { segments = []; linkedit = none; rebase = none }

unfoldable pub rebase_linker : Format → ℕ → List (ℕ × Command) → Memory → Result Memory
unfolding find_commands rebase_found
rebase_linker format slide cs m =
    find_commands cs nothing_found >>= λ f. rebase_found format slide f m

abbrev is_text : SegmentName → Bool
is_text SegmentName.text = true
is_text SegmentName.linkedit = false
is_text SegmentName.other = false

-- `mh` is the address of the executable's header.
unfoldable pub slide_of_main_executable : ℕ → List (ℕ × Command) → ℕ
slide_of_main_executable mh [] = 0
slide_of_main_executable mh ((a, segment seg) ∷ cs) =
    if is_text seg.name
    then (mh + word_mod - seg.vmaddr) % word_mod
    else slide_of_main_executable mh cs
slide_of_main_executable mh ((a, _) ∷ cs) = slide_of_main_executable mh cs

-- What `_main` is called with, besides the arguments of the process.
pub record Started : Type 0 where
  pub linker_header : ℕ
  pub linker_slide : ℕ
  pub exec_header : ℕ
  pub exec_slide : ℕ
  pub memory : Memory

-- The headers with the commands behind each. `start` up to the call of `_main`; behind it the linker
-- halts.
unfoldable pub start :
    Format → ℕ → List (ℕ × Command) → ℕ → ℕ → List (ℕ × Command) → Memory → Result Started
unfolding rebase_linker slide_of_main_executable
start format exec_header exec_commands slide lnk_header lnk_commands m =
    (if slide == 0 then done m else rebase_linker format slide lnk_commands m) >>= λ m'.
    done (record {
      linker_header = lnk_header;
      linker_slide = slide;
      exec_header = exec_header;
      exec_slide = slide_of_main_executable exec_header exec_commands;
      memory = m';
    })
