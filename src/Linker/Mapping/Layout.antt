-- ===== src/Linker/Mapping/Layout.antt =====
-- What the memory of an image holds behind `MachObject::instantiateFromFile` of core/lnk_macho.cpp.
use mathlib.Core.Path.{subst}
use lib_system_and_linker.Prelude.{
  ℕ, zero, suc, ◌+◌, ◌-◌, ◌%◌, ◌≤◌, ◌<◌, ◌≡◌, refl, ◌∙◌, ◌==◌, ltb, if◌then◌else◌, Option, none,
  some, Option-cases, List, [], ◌∷◌, ◌++◌, get_elem?, arith, inl, inr,
}
use lib_system_and_linker.Linker.Rebase.{word_mod}
use lib_system_and_linker.Linker.Commands.{SegmentCommand}
use lib_system_and_linker.Linker.Mapping.{
  Multiple, Paging, Mapping, map_segment, map_segments, Content, zeroed, file_byte, content,
}

abbrev pub or_before : Option Content → Option Content → Option Content
or_before none c = c
or_before (some c) d = some c

pub content-append :
    (ms ns : List Mapping) (a : ℕ) → content (ms ++ ns) a ≡ or_before (content ns a) (content ms a)
unfolding content
content-append [] ns a = elim (Option-cases (content ns a)) [ inl e ↦ rw e | inr (c, e) ↦ rw e ]
content-append (m ∷ ms) ns a =
    rw (content-append ms ns a)
      (elim (Option-cases (content ns a)) [ inl e ↦ rw e | inr (c, e) ↦ rw e ])

or_before-none : (c : Option Content) → or_before c none ≡ c
or_before-none none = refl
or_before-none (some c) = refl

Multiple-add : (n x y : ℕ) → Multiple n x → Multiple n y → Multiple n (x + y)
Multiple-add n x y (k, e) (l, f) = (k + l, grind arith)

next-Multiple :
    (n v size bias : ℕ) → Multiple n (v + bias) → Multiple n size → Multiple n (v + size + bias)
next-Multiple n v size bias m whole =
    let e : v + size + bias ≡ v + bias + size = omega arith in
    rw e (Multiple-add n (v + bias) size m whole)

nothing : (a : ℕ) → content [] a ≡ none
unfolding content
nothing a = refl

-- Segments one behind the other, from an address on, up to an address; their sizes are those of pages,
-- no file part is larger than its segment, and file parts start at multiples of 4096 in the file.
abbrev pub Contiguous : ℕ → ℕ → List SegmentCommand → ℕ → Type 0
Contiguous page_size v [] end_addr = v ≡ end_addr
Contiguous page_size v (seg ∷ segs) end_addr =
    (seg.vmaddr ≡ v)
    × Multiple page_size seg.vmsize
    × ((seg.filesize ≤ seg.vmsize) × (seg.fileoff % 4096 ≡ 0))
    × Contiguous page_size (v + seg.vmsize) segs end_addr

pub Contiguous-le : (n v : ℕ) (segs : List SegmentCommand) (e : ℕ) → Contiguous n v segs e → v ≤ e
Contiguous-le n v [] e h = omega arith
Contiguous-le n v (seg ∷ segs) e h = omega (arith, Contiguous-le n (v + seg.vmsize) segs e h.3)

module _ (p : Paging) where
  round_page-eq :
      (x : ℕ)
      → Multiple p.page_size x
      → x + p.page_size ≤ word_mod
      → 0 < p.page_size
      → p.round_page x ≡ x
  round_page-eq x m fits pos =
      omega (arith, p.le-round_page x fits, p.round_page-least x x m (omega arith) (omega arith))

  -- The byte of a segment, at an offset.
  abbrev pub segment_content : ℕ → SegmentCommand → ℕ → Option Content
  segment_content bias seg k =
      if ltb k (p.round_page seg.filesize)
      then some (file_byte (seg.fileoff + k))
      else (if bias == 0 then some zeroed else none)

  module _ (bias : ℕ) (seg : SegmentCommand) (pos : 0 < p.page_size)
      (at_page : Multiple p.page_size (seg.vmaddr + bias)) (whole : Multiple p.page_size seg.vmsize)
      (within : seg.filesize ≤ seg.vmsize) (aligned : seg.fileoff % 4096 ≡ 0)
      (fits : seg.vmaddr + bias + seg.vmsize + p.page_size ≤ word_mod) where
    filesize-le : p.round_page seg.filesize ≤ seg.vmsize
    filesize-le = p.round_page-least seg.filesize seg.vmsize whole within (omega arith)

    vmsize-eq : p.round_page seg.vmsize ≡ seg.vmsize
    vmsize-eq = round_page-eq seg.vmsize whole (omega arith) pos

    start-eq : p.round_page ((seg.vmaddr + bias) % word_mod) ≡ seg.vmaddr + bias
    start-eq =
        let small : (seg.vmaddr + bias) % word_mod ≡ seg.vmaddr + bias = omega arith in
        rw small (round_page-eq (seg.vmaddr + bias) at_page (omega arith) pos)

    behind-eq :
        p.round_page ((seg.vmaddr + bias + p.round_page seg.filesize) % word_mod)
        ≡ seg.vmaddr + bias + p.round_page seg.filesize
    behind-eq =
        let small : (seg.vmaddr + bias + p.round_page seg.filesize) % word_mod
            ≡ seg.vmaddr + bias + p.round_page seg.filesize =
          omega (arith, filesize-le) in
        rw small (
          round_page-eq (seg.vmaddr + bias + p.round_page seg.filesize)
            (Multiple-add p.page_size (seg.vmaddr + bias) (p.round_page seg.filesize) at_page
              (p.round_page-Multiple seg.filesize))
            (omega (arith, filesize-le)) pos)

    delta-eq :
        (p.round_page seg.vmsize + word_mod - p.round_page seg.filesize) % word_mod
        ≡ seg.vmsize - p.round_page seg.filesize
    delta-eq = omega (arith, filesize-le, vmsize-eq)

    -- What a byte of the segment is, from its own mappings.
    map_segment-content :
        (k : ℕ)
        → k < seg.vmsize
        → content (map_segment p bias seg) (seg.vmaddr + bias + k) ≡ segment_content bias seg k
    unfolding map_segment content
    map_segment-content k inside = rw (start-eq, behind-eq, delta-eq) (ground (arith, filesize-le))

    -- Nothing below its start.
    map_segment-below : (a : ℕ) → a < seg.vmaddr + bias → content (map_segment p bias seg) a ≡ none
    unfolding map_segment content
    map_segment-below a below = rw (start-eq, behind-eq, delta-eq) (ground (arith, filesize-le))

    -- Nothing behind its end.
    map_segment-above :
        (a : ℕ) → seg.vmaddr + bias + seg.vmsize ≤ a → content (map_segment p bias seg) a ≡ none
    unfolding map_segment content
    map_segment-above a above = rw (start-eq, behind-eq, delta-eq) (ground (arith, filesize-le))

  module _ (bias end_addr : ℕ) (pos : 0 < p.page_size)
      (fits : end_addr + bias + p.page_size ≤ word_mod) where
    pub map_segments-below :
        (v : ℕ) (segs : List SegmentCommand) (a : ℕ)
        → Contiguous p.page_size v segs end_addr
        → Multiple p.page_size (v + bias)
        → a < v + bias
        → content (map_segments p bias segs) a ≡ none
    unfolding map_segments
    map_segments-below v [] a h m below = nothing a
    map_segments-below v (seg ∷ segs) a (e, whole, (within, aligned), h) m below =
        let le = Contiguous-le p.page_size (v + seg.vmsize) segs end_addr h in
        let m' : Multiple p.page_size (seg.vmaddr + bias) = rw e m in
        let next = next-Multiple p.page_size v seg.vmsize bias m whole in
        content-append (map_segment p bias seg) (map_segments p bias segs) a
        ∙ rw (map_segments-below (v + seg.vmsize) segs a h next (omega arith))
            (map_segment-below bias seg pos m' whole within aligned (omega arith) a (omega arith))

    pub vmaddr-le :
        (v : ℕ) (segs : List SegmentCommand) (i : ℕ) (seg : SegmentCommand)
        → Contiguous p.page_size v segs end_addr
        → get_elem? segs i ≡ some seg
        → v ≤ seg.vmaddr
    vmaddr-le v [] i seg h e = cc
    vmaddr-le v (s ∷ segs) zero seg h e = ground (arith, h.0)
    vmaddr-le v (s ∷ segs) (suc i) seg h e =
        omega (arith, vmaddr-le (v + s.vmsize) segs i seg h.3 e)

    -- Where each segment lies behind the one before it, its bytes are those of its own mappings.
    pub map_segments-content :
        (v : ℕ) (segs : List SegmentCommand) (i : ℕ) (seg : SegmentCommand) (k : ℕ)
        → Contiguous p.page_size v segs end_addr
        → Multiple p.page_size (v + bias)
        → get_elem? segs i ≡ some seg
        → k < seg.vmsize
        → content (map_segments p bias segs) (seg.vmaddr + bias + k) ≡ segment_content bias seg k
    unfolding map_segments
    map_segments-content v [] i seg k h m e inside = cc
    map_segments-content v (s ∷ segs) zero seg k (f, whole, (within, aligned), h) m e inside =
        let le = Contiguous-le p.page_size (v + s.vmsize) segs end_addr h in
        let m' : Multiple p.page_size (s.vmaddr + bias) = rw f m in
        let next = next-Multiple p.page_size v s.vmsize bias m whole in
        let same : s ≡ seg = cc in
        subst
          (λ (x : SegmentCommand).
            k < x.vmsize
            → content (map_segment p bias s ++ map_segments p bias segs) (x.vmaddr + bias + k)
              ≡ segment_content bias x k)
          same
          (λ (l : k < s.vmsize).
            content-append (map_segment p bias s) (map_segments p bias segs) (s.vmaddr + bias + k)
            ∙ rw (map_segments-below (v + s.vmsize) segs (s.vmaddr + bias + k) h next (omega arith))
                (map_segment-content bias s pos m' whole within aligned (omega arith) k l))
          inside
    map_segments-content v (s ∷ segs) (suc i) seg k (f, whole, (within, aligned), h) m e inside =
        let le = Contiguous-le p.page_size (v + s.vmsize) segs end_addr h in
        let m' : Multiple p.page_size (s.vmaddr + bias) = rw f m in
        let next = next-Multiple p.page_size v s.vmsize bias m whole in
        let later = vmaddr-le (v + s.vmsize) segs i seg h e in
        content-append (map_segment p bias s) (map_segments p bias segs) (seg.vmaddr + bias + k)
        ∙ rw
            (
              map_segments-content (v + s.vmsize) segs i seg k h next e inside,
              map_segment-above bias s pos m' whole within aligned (omega arith)
                  (seg.vmaddr + bias + k) (omega arith),
            )
            (or_before-none (segment_content bias seg k))

    pub map_segments-above :
        (v : ℕ) (segs : List SegmentCommand) (a : ℕ)
        → Contiguous p.page_size v segs end_addr
        → Multiple p.page_size (v + bias)
        → end_addr + bias ≤ a
        → content (map_segments p bias segs) a ≡ none
    unfolding map_segments
    map_segments-above v [] a h m above = nothing a
    map_segments-above v (seg ∷ segs) a (e, whole, (within, aligned), h) m above =
        let le = Contiguous-le p.page_size (v + seg.vmsize) segs end_addr h in
        let m' : Multiple p.page_size (seg.vmaddr + bias) = rw e m in
        let next = next-Multiple p.page_size v seg.vmsize bias m whole in
        content-append (map_segment p bias seg) (map_segments p bias segs) a
        ∙ rw (map_segments-above (v + seg.vmsize) segs a h next above)
            (map_segment-above bias seg pos m' whole within aligned (omega arith) a (omega arith))
