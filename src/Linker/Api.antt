-- ===== src/Linker/Api.antt =====
-- core/lnk_api.cpp: what the linker tells programs about the images of its chain.
pub mod Addresses
pub mod Handles
mod Runs
use lib_system_and_linker.Prelude.{
  ℕ, zero, suc, ◌+◌, ◌%◌, ◌^◌, ◌==◌, leb, ◌&&◌, if◌then◌else◌, Bool, true, false, Option, none,
  some, List, [], ◌∷◌, ◌++◌, length,
}
use lib_system_and_linker.Linker.Stream.{Result, done, halts, strays, ◌>>=◌}
use lib_system_and_linker.Linker.Rebase.{word_mod}
use lib_system_and_linker.Linker.Commands.{MachObject}
use lib_system_and_linker.Linker.Classic.{segment_addr}

-- An image of the chain: its object, `fHeader`, `fFilePath` as a number, and whether `getImageType` is
-- kImageTypeMachO.
pub record ApiImage : Type 0 where
  pub object : MachObject
  pub header : ℕ
  pub file_path : ℕ
  pub is_mach_o : Bool

-- The loop over the chain from `sFirstImage` on.
unfoldable pub dyld_image_count : List ApiImage → ℕ → ℕ
dyld_image_count [] count = count
dyld_image_count (im ∷ ims) count = dyld_image_count ims ((count + 1) % word_mod)

-- The loop that `_dyld_get_image_header` and `_dyld_get_image_vmaddr_slide` share; 0 is NULL.
unfoldable pub image_at : (ApiImage → ℕ) → List ApiImage → ℕ → ℕ → ℕ
image_at get [] count index = 0
image_at get (im ∷ ims) count index =
    let rest = image_at get ims ((count + 1) % word_mod) index in
    if count == index then get im else rest

unfoldable pub dyld_get_image_header : List ApiImage → ℕ → ℕ
unfolding image_at
dyld_get_image_header chain index = image_at (λ im. im.header) chain 0 index

unfoldable pub dyld_get_image_vmaddr_slide : List ApiImage → ℕ → ℕ
unfolding image_at
dyld_get_image_vmaddr_slide chain index = image_at (λ im. im.object.slide) chain 0 index

-- `getTextSegmentBounds`. An image with no segment has NULL for its first.
abbrev pub text_bounds : MachObject → Result (ℕ × ℕ)
text_bounds o = elim o.segments [
  | [] ↦ strays
  | seg ∷ segs ↦ done (segment_addr o.slide seg, (segment_addr o.slide seg + seg.vmsize) % word_mod)
]

-- `dli_fname` and `dli_fbase`, where `dladdr` returns 1.
pub record DlInfo : Type 0 where
  pub fname : ℕ
  pub fbase : ℕ

unfoldable pub dladdr : List ApiImage → ℕ → Result (Option DlInfo)
dladdr [] ptr = done none
dladdr (im ∷ ims) ptr = text_bounds im.object >>= λ (start, end_addr).
    let rest = dladdr ims ptr in
    if leb ptr end_addr && leb start ptr
    then done (some (record { fname = im.file_path; fbase = im.object.slide }))
    else rest

-- A handler for added images, and one for changes of state with what it was registered for.
pub record ChangeHandler : Type 0 where
  pub fn : ℕ
  pub state : ℕ
  pub batch : Bool

-- A call of a handler: for an image, with its header and slide, or for a list of headers, which always
-- gets dyld_image_state_bound.
pub data Notice : Type 0 where
  added : ℕ → ℕ → ℕ → Notice
  bound : ℕ → List ℕ → Notice

-- The two tables, of 1024 places each.
pub record Handlers : Type 0 where
  pub add_handlers : List ℕ
  pub change_handlers : List ChangeHandler

-- The headers of the chain, in an array of 1024 places.
unfoldable pub headers : List ApiImage → List ℕ → Result (List ℕ)
headers [] infos = done infos
headers (im ∷ ims) infos =
    let rest = headers ims (infos ++ (im.header ∷ [])) in
    if im.is_mach_o then (if leb 1024 (length infos) then strays else rest) else halts

-- The main executable comes behind the chain.
unfoldable pub run_batch_notifications_with_handler :
    List ApiImage → ApiImage → ChangeHandler → Result Notice
unfolding headers
run_batch_notifications_with_handler chain main hn = headers chain [] >>= λ infos.
    if leb 1024 (length infos) then strays else done (bound hn.fn (infos ++ (main.header ∷ [])))

unfoldable pub run_all : List ApiImage → ApiImage → List ChangeHandler → Result (List Notice)
unfolding run_batch_notifications_with_handler
run_all chain main [] = done []
run_all chain main (hn ∷ hns) = run_batch_notifications_with_handler chain main hn >>= λ n.
    run_all chain main hns >>= λ ns. done (n ∷ ns)

unfoldable pub run_bound_notifications : List ApiImage → ApiImage → Handlers → Result (List Notice)
unfolding run_all
run_bound_notifications chain main h = run_all chain main h.change_handlers

unfoldable pub run_add_image_handler : ℕ → List ApiImage → List Notice
run_add_image_handler fn [] = []
run_add_image_handler fn (im ∷ ims) =
    added fn im.header im.object.slide ∷ run_add_image_handler fn ims

unfoldable pub register_image_state_change_handler :
    List ApiImage → ApiImage → ChangeHandler → Handlers → Result (List Notice × Handlers)
unfolding run_batch_notifications_with_handler
register_image_state_change_handler chain main hn h =
    if leb 1024 (length h.change_handlers)
    then strays
    else (run_batch_notifications_with_handler chain main hn >>= λ n.
        done (n ∷ [], record h { change_handlers = h.change_handlers ++ (hn ∷ []) }))

unfoldable pub register_func_for_add_image :
    List ApiImage → ℕ → Handlers → Result (List Notice × Handlers)
unfolding run_add_image_handler
register_func_for_add_image chain fn h =
    if leb 1024 (length h.add_handlers)
    then strays
    else done
        (run_add_image_handler fn chain, record h { add_handlers = h.add_handlers ++ (fn ∷ []) })
