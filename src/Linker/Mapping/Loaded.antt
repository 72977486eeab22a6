-- ===== src/Linker/Mapping/Loaded.antt =====
-- The new object of `MachObject::instantiateFromFile` of core/lnk_macho.cpp, and the memory behind it.
use lib_system_and_linker.Prelude.{
  ℕ, ◌+◌, ◌%◌, ◌≤◌, ◌<◌, ◌≡◌, ◌≢◌, ◌⊎◌, refl, ap, ◌∙◌, ◌==◌, ltb, if◌then◌else◌, true, Option, none,
  some, List, [], ◌∷◌, ◌++◌, length, get_elem?, arith, Bool-cases, inl, inr,
}
use lib_system_and_linker.Linker.Stream.{Result, done}
use lib_system_and_linker.Linker.Rebase.{word_mod}
use lib_system_and_linker.Linker.Commands.{SegmentCommand, read_commands}
use lib_system_and_linker.Linker.Commands.Parsed.{all_of, segment_of}
use lib_system_and_linker.Linker.Mapping.{
  Multiple, Paging, Mapping, anonymous, MachFile, Instance, collect_segments, map_segments,
  map_image, instantiate_from_file, Content, zeroed, file_byte, content,
}
use lib_system_and_linker.Linker.Mapping.Layout.{
  or_before, content-append, Contiguous, Contiguous-le, vmaddr-le, map_segments-below,
  map_segments-above, map_segments-content, segment_content,
}
use lib_system_and_linker.Linker.Mapping.Segments.{
  sizes, collect_segments-eq, Contiguous-sizes, segment_end-le,
}

-- The byte that a segment is to have at an offset.
abbrev pub loaded_byte : Paging → SegmentCommand → ℕ → Content
loaded_byte p seg k =
    if ltb k (p.round_page seg.filesize) then file_byte (seg.fileoff + k) else zeroed

module _ (p : Paging) (first : SegmentCommand) (rest : List SegmentCommand)
    (end_addr bias : ℕ) where
  -- The segments of an image that can be loaded `bias` above where they ask to be.
  pub record Loadable : Type 0 where
    pub has_page : 0 < p.page_size
    pub has_room : length (first ∷ rest) ≤ 64
    pub is_contiguous : Contiguous p.page_size first.vmaddr (first ∷ rest) end_addr
    pub at_page : Multiple p.page_size (first.vmaddr + bias)
    pub fits : end_addr + bias + p.page_size ≤ word_mod
    pub is_moved : first.vmaddr ≡ 0 → bias ≢ 0

  -- The object has its slide and header, all bytes of the segments are in memory, and nothing else is
  -- mapped.
  pub record InMemory (inst : Instance) : Type 0 where
    pub slide : inst.slide ≡ bias
    pub header : inst.header ≡ first.vmaddr + bias
    pub bytes :
        (i : ℕ) (seg : SegmentCommand) (k : ℕ)
        → get_elem? (first ∷ rest) i ≡ some seg
        → k < seg.vmsize
        → content inst.mappings (seg.vmaddr + bias + k) ≡ some (loaded_byte p seg k)
    pub outside :
        (a : ℕ) → (a < first.vmaddr + bias) ⊎ (end_addr + bias ≤ a) → content inst.mappings a ≡ none

  abbrev placed : List Mapping → Instance
  placed range = record {
    slide = bias;
    header = (first.vmaddr + bias) % word_mod;
    is_split_seg = bias == 0;
    table_entry = ((first.vmaddr + bias) % word_mod, first.vmsize);
    mappings = range ++ map_segments p bias (first ∷ rest);
  }

  module _ (l : Loadable) where
    -- `range` is what is mapped before the segments.
    placed-InMemory :
        (range : List Mapping)
        → ((a : ℕ)
            → bias ≢ 0
            → first.vmaddr + bias ≤ a
            → a < end_addr + bias
            → content range a ≡ some zeroed)
        → ((a : ℕ) → (a < first.vmaddr + bias) ⊎ (end_addr + bias ≤ a) → content range a ≡ none)
        → InMemory (placed range)
    placed-InMemory range inside beyond = record {
      slide = refl;
      header =
          (let le =
              Contiguous-le p.page_size first.vmaddr (first ∷ rest) end_addr l.is_contiguous in
            omega (arith, l.fits, l.has_page));
      bytes = λ i seg k e k_lt.
          let a = seg.vmaddr + bias + k in
          let lo =
            vmaddr-le p bias end_addr l.has_page l.fits first.vmaddr (first ∷ rest) i seg
              l.is_contiguous e in
          let hi =
            segment_end-le p.page_size end_addr first.vmaddr (first ∷ rest) i seg l.is_contiguous
              e in
          content-append range (map_segments p bias (first ∷ rest)) a
          ∙ rw
              (map_segments-content p bias end_addr l.has_page l.fits first.vmaddr (first ∷ rest) i
                seg k l.is_contiguous l.at_page e k_lt)
              (filled seg k (content range a) (λ z. inside a z (omega arith) (omega arith)));
      outside = λ a h.
          content-append range (map_segments p bias (first ∷ rest)) a
          ∙ rw (segments-outside a h) (beyond a h);
    }
      where
        filled :
            (seg : SegmentCommand) (k : ℕ) (c : Option Content)
            → (bias ≢ 0 → c ≡ some zeroed)
            → or_before (segment_content p bias seg k) c ≡ some (loaded_byte p seg k)
        filled seg k c h = elim (Bool-cases (ltb k (p.round_page seg.filesize))) [
          | inl y ↦ rw y
          | inr n ↦
              rw n
                (elim (Bool-cases (bias == 0)) [ inl z ↦ rw z | inr m ↦ rw m (h (ground arith)) ])
        ]

        segments-outside :
            (a : ℕ)
            → (a < first.vmaddr + bias) ⊎ (end_addr + bias ≤ a)
            → content (map_segments p bias (first ∷ rest)) a ≡ none
        segments-outside a (inl below) =
            map_segments-below p bias end_addr l.has_page l.fits first.vmaddr (first ∷ rest) a
              l.is_contiguous l.at_page below
        segments-outside a (inr above) =
            map_segments-above p bias end_addr l.has_page l.fits first.vmaddr (first ∷ rest) a
              l.is_contiguous l.at_page above

-- An image whose first segment asks for address 0 goes to a reserved range of its size, another stays.
abbrev pub bias_of : (ℕ → ℕ) → SegmentCommand → ℕ → ℕ
bias_of reserved first end_addr = if first.vmaddr == 0 then reserved end_addr else 0

module _ (p : Paging) (reserved : ℕ → ℕ) (first : SegmentCommand) (rest : List SegmentCommand)
    (end_addr : ℕ) where
  abbrev range_of : List Mapping
  range_of =
      if first.vmaddr == 0 then anonymous (bias_of reserved first end_addr) end_addr ∷ [] else []

  map_image-eq :
      (size : ℕ)
      → first.vmaddr + size ≡ end_addr
      → map_image p reserved size first rest
        ≡ placed p first rest end_addr (bias_of reserved first end_addr) range_of
  unfolding map_image
  map_image-eq size total =
      ap
        (λ b.
          placed p first rest end_addr b (if first.vmaddr == 0 then anonymous b size ∷ [] else []))
        same_bias
      ∙ ap (placed p first rest end_addr (bias_of reserved first end_addr)) same_range
    where
      same_size : (first.vmaddr == 0) ≡ true → size ≡ end_addr
      same_size y = ground (arith, y)

      same_bias : bias_of reserved first size ≡ bias_of reserved first end_addr
      same_bias = elim (Bool-cases (first.vmaddr == 0)) [
        | inl y ↦ rw (y, same_size y)
        | inr n ↦ rw n
      ]

      same_range :
          (if first.vmaddr == 0 then anonymous (bias_of reserved first end_addr) size ∷ [] else [])
          ≡ range_of
      same_range = elim (Bool-cases (first.vmaddr == 0)) [
        | inl y ↦ rw (y, same_size y)
        | inr n ↦ rw n
      ]

  range-inside :
      (a : ℕ)
      → bias_of reserved first end_addr ≢ 0
      → first.vmaddr + bias_of reserved first end_addr ≤ a
      → a < end_addr + bias_of reserved first end_addr
      → content range_of a ≡ some zeroed
  unfolding content
  range-inside a moved lo hi = elim (Bool-cases (first.vmaddr == 0)) [
    | inl y ↦ ground (arith, y)
    | inr n ↦ ground (arith, n)
  ]

  range-outside :
      (a : ℕ)
      → (a < first.vmaddr + bias_of reserved first end_addr)
        ⊎ (end_addr + bias_of reserved first end_addr ≤ a)
      → content range_of a ≡ none
  unfolding content
  range-outside a h = elim (Bool-cases (first.vmaddr == 0)) [
    | inl y ↦ ground (arith, y)
    | inr n ↦ ground (arith, n)
  ]

  -- A file with the magic, whose segments lie one behind the other at pages, with file parts that start at
  -- multiples of 4096 in the file and are no larger than the segments, and can be placed: the linker
  -- returns an object with the slide and the header of that place, where every byte of every segment is
  -- the file's or, behind the pages of the file's part, 0, and no mapping leaves the image's range.
  pub instantiate_from_file-InMemory :
      (file : MachFile)
      → file.has_magic ≡ true
      → all_of segment_of (read_commands file.commands file.ncmds 0) ≡ first ∷ rest
      → Loadable p first rest end_addr (bias_of reserved first end_addr)
      → (inst : Instance) × (instantiate_from_file p reserved file ≡ done inst)
        × InMemory p first rest end_addr (bias_of reserved first end_addr) inst
  unfolding instantiate_from_file
  instantiate_from_file-InMemory file magic segs l =
      let l' =
        placed-InMemory p first rest end_addr (bias_of reserved first end_addr) l range_of
          range-inside range-outside in
      let total =
        Contiguous-sizes p.page_size first.vmaddr (first ∷ rest) end_addr l.is_contiguous in
      let small : sizes (first ∷ rest) % word_mod ≡ sizes (first ∷ rest) =
        omega (arith, l.fits, l.has_page) in
      let room : length {A = SegmentCommand} []
            + length (all_of segment_of (read_commands file.commands file.ncmds 0))
          ≤ 64 =
        rw segs (omega (arith, l.has_room)) in
      let collected : collect_segments (read_commands file.commands file.ncmds 0) [] 0
          ≡ done (first ∷ rest, sizes (first ∷ rest)) =
        collect_segments-eq (read_commands file.commands file.ncmds 0) [] 0 room (omega arith)
        ∙ whole (all_of segment_of (read_commands file.commands file.ncmds 0)) segs small in
      (_, rw (magic, collected) (ap done (map_image-eq (sizes (first ∷ rest)) total)), l')
    where
      whole :
          (segs : List SegmentCommand)
          → segs ≡ first ∷ rest
          → sizes (first ∷ rest) % word_mod ≡ sizes (first ∷ rest)
          → ◌≡◌ {A = Result (List SegmentCommand × ℕ)}
              (done (segs, (0 + sizes segs) % word_mod))
              (done (first ∷ rest, sizes (first ∷ rest)))
      whole segs e small = rw e (
          let z : (0 + sizes (first ∷ rest)) % word_mod ≡ sizes (first ∷ rest) =
            omega (arith, small) in
          rw z refl)
