-- ===== src/Linker/Api/Addresses.antt =====
-- The images by index, and by an address in their text, of core/lnk_api.cpp.
use mathlib.Core.Path.{subst}
use lib_system_and_linker.Prelude.{
  ℕ, zero, suc, ◌+◌, ◌%◌, ◌<◌, ◌≤◌, ◌≡◌, ◌⊎◌, inl, inr, refl, ap, ◌∙◌, ◌==◌, leb, ◌&&◌,
  if◌then◌else◌, Bool, true, false, Bool-cases, Option, none, some, List, [], ◌∷◌, ◌++◌, length,
  get_elem?, arith,
}
use lib_system_and_linker.Linker.Stream.{done}
use lib_system_and_linker.Linker.Rebase.{word_mod}
use lib_system_and_linker.Linker.Commands.{SegmentCommand}
use lib_system_and_linker.Linker.Classic.{segment_addr}
use lib_system_and_linker.Linker.Api.{
  ApiImage, dyld_image_count, image_at, dyld_get_image_header, dyld_get_image_vmaddr_slide, dladdr,
}

-- The value of an image that may be missing; 0 is NULL.
abbrev pub value_of : (ApiImage → ℕ) → Option ApiImage → ℕ
value_of get none = 0
value_of get (some im) = get im

image_at-behind :
    (get : ApiImage → ℕ) (ims : List ApiImage) (count i : ℕ)
    → count + length ims < word_mod
    → image_at get ims count (count + i) ≡ value_of get (get_elem? ims i)
unfolding image_at
image_at-behind get [] count i h = refl
image_at-behind get (im ∷ ims) count zero h = ground arith
image_at-behind get (im ∷ ims) count (suc i) h =
    let next : (count + 1) % word_mod ≡ count + 1 = omega arith in
    let here : (count == count + suc i) ≡ false = ground arith in
    let index : count + suc i ≡ count + 1 + i = omega arith in
    rw (here, next, index) (image_at-behind get ims (count + 1) i (omega arith))

count-eq :
    (ims : List ApiImage) (count : ℕ)
    → count + length ims < word_mod
    → dyld_image_count ims count ≡ count + length ims
unfolding dyld_image_count
count-eq [] count h = omega arith
count-eq (im ∷ ims) count h =
    let next : (count + 1) % word_mod ≡ count + 1 = omega arith in
    rw next (count-eq ims (count + 1) (omega arith) ∙ omega arith)

-- The functions count the images of the chain and give the header and the slide of each by its place, 0
-- behind the last.
pub images_enumerated :
    (chain : List ApiImage)
    → length chain < word_mod
    → (dyld_image_count chain 0 ≡ length chain)
      × ((i : ℕ)
          → (dyld_get_image_header chain i ≡ value_of (λ im. im.header) (get_elem? chain i))
            × (dyld_get_image_vmaddr_slide chain i
                ≡ value_of (λ im. im.object.slide) (get_elem? chain i)))
unfolding dyld_get_image_header dyld_get_image_vmaddr_slide
images_enumerated chain h = (
  count-eq chain 0 (omega arith) ∙ omega arith,
  λ i.
      let e : i ≡ 0 + i = omega arith in
      (
        ap (image_at (λ im. im.header) chain 0) e
            ∙ image_at-behind (λ im. im.header) chain 0 i (omega arith),
        ap (image_at (λ im. im.object.slide) chain 0) e
            ∙ image_at-behind (λ im. im.object.slide) chain 0 i (omega arith),
      ),
)

-- The first segment of an image: its text.
abbrev pub HasText : ApiImage → SegmentCommand → Type 0
HasText im seg = (rest : List SegmentCommand) × (im.object.segments ≡ seg ∷ rest)

-- The address lies in the text, its end included.
abbrev pub InText : ApiImage → ℕ → Type 0
InText im ptr =
    (seg : SegmentCommand) × HasText im seg
    × (segment_addr im.object.slide seg ≤ ptr)
    × (ptr ≤ (segment_addr im.object.slide seg + seg.vmsize) % word_mod)

abbrev pub AllText : List ApiImage → Type 0
AllText [] = Unit
AllText (im ∷ ims) = ((seg : SegmentCommand) × HasText im seg) × AllText ims

abbrev pub NotIn : List ApiImage → ℕ → Type 0
NotIn [] ptr = Unit
NotIn (im ∷ ims) ptr = (¬ InText im ptr) × NotIn ims ptr

dladdr-cons :
    (im : ApiImage) (ims : List ApiImage) (ptr : ℕ) (seg : SegmentCommand)
    → HasText im seg
    → dladdr (im ∷ ims) ptr ≡ (
        if leb ptr ((segment_addr im.object.slide seg + seg.vmsize) % word_mod)
          && leb (segment_addr im.object.slide seg) ptr
        then done (some (record { fname = im.file_path; fbase = im.object.slide }))
        else dladdr ims ptr)
unfolding dladdr
dladdr-cons im ims ptr seg (rest, e) = rw e refl

dladdr-nil : (ptr : ℕ) → dladdr [] ptr ≡ done none
unfolding dladdr
dladdr-nil ptr = refl

abbrev in_range : ApiImage → SegmentCommand → ℕ → Bool
in_range im seg ptr =
    leb ptr ((segment_addr im.object.slide seg + seg.vmsize) % word_mod)
    && leb (segment_addr im.object.slide seg) ptr

in_range-InText :
    (im : ApiImage) (seg : SegmentCommand) (ptr : ℕ)
    → HasText im seg
    → in_range im seg ptr ≡ true
    → InText im ptr
in_range-InText im seg ptr t y = (seg, t, ground (arith, y), ground (arith, y))

one_text :
    (im : ApiImage) (seg seg' : SegmentCommand) → HasText im seg → HasText im seg' → seg' ≡ seg
one_text im seg seg' (rest, e) (rest', e') = cc

not_in_range :
    (im : ApiImage) (seg : SegmentCommand) (ptr : ℕ)
    → HasText im seg
    → in_range im seg ptr ≡ false
    → ¬ InText im ptr
not_in_range im seg ptr t n (seg', t', lo, hi) =
    let lo' : segment_addr im.object.slide seg ≤ ptr =
      subst (λ (x : SegmentCommand). segment_addr im.object.slide x ≤ ptr)
        (one_text im seg seg' t t') lo in
    let hi' : ptr ≤ (segment_addr im.object.slide seg + seg.vmsize) % word_mod =
      subst (λ (x : SegmentCommand). ptr ≤ (segment_addr im.object.slide x + x.vmsize) % word_mod)
        (one_text im seg seg' t t') hi in
    ground (arith, n, lo', hi')

-- Where each image has a segment, `dladdr` finds nothing exactly where no text has the address; else it
-- gives the path and the slide of the first image of the chain whose text has it, where the address
-- behind a text counts as in it.
pub dladdr_finds_first :
    (chain : List ApiImage) (ptr : ℕ)
    → AllText chain
    → ((dladdr chain ptr ≡ done none) × NotIn chain ptr)
      ⊎ ((before : List ApiImage) × (im : ApiImage) × (after : List ApiImage) × (chain
            ≡ before ++ (im ∷ after))
          × NotIn before ptr
          × InText im ptr
          × (dladdr chain ptr
              ≡ done (some (record { fname = im.file_path; fbase = im.object.slide }))))
dladdr_finds_first [] ptr h = inl (dladdr-nil ptr, tt)
dladdr_finds_first (im ∷ ims) ptr ((seg, t), h) =
    let cons = dladdr-cons im ims ptr seg t in
    elim (Bool-cases (in_range im seg ptr)) [
      | inl y ↦ inr ([], im, ims, refl, tt, in_range-InText im seg ptr t y, cons ∙ rw y refl)
      | inr n ↦ elim (dladdr_finds_first ims ptr h) [
        | inl (e, out) ↦ inl (cons ∙ rw n e, (not_in_range im seg ptr t n, out))
        | inr (before, found, after, e, out, inside, r) ↦ inr (
          im ∷ before,
          found,
          after,
          ap (λ xs. im ∷ xs) e,
          (not_in_range im seg ptr t n, out),
          inside,
          cons ∙ rw n r,
        )
      ]
    ]
