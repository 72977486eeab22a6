-- ===== src/Linker/Api/Runs.antt =====
-- Two images for the functions of core/lnk_api.cpp, one that ends where the other begins, and a library.
use lib_system_and_linker.Prelude.{
  ℕ, ◌+◌, ◌≡◌, ◌≢◌, ◌⊎◌, refl, ◌==◌, if◌then◌else◌, true, false, Bool-cases, inl, inr, Option, none,
  some, List, [], ◌∷◌, ◌++◌, arith,
}
use lib_system_and_linker.Linker.Chain.{contains}
use lib_system_and_linker.Linker.Stream.{Result, done}
use lib_system_and_linker.Linker.Commands.{SegmentName, SegmentCommand, new_object}
use lib_system_and_linker.Linker.Lookup.{less}
use lib_system_and_linker.Linker.Load.{Prefix, plain, system, usr_lib, Machine, Works, open_library}
use lib_system_and_linker.Linker.Load.Counts.{copies, unloaded}
use lib_system_and_linker.Linker.Load.Once.{Sound, Within}
use lib_system_and_linker.Linker.Resolve.{ClassicObject, classic, Images, resolve}
use lib_system_and_linker.Linker.Api.{ApiImage, dladdr}
use lib_system_and_linker.Linker.Api.Addresses.{NotIn, InText, dladdr_finds_first}
use lib_system_and_linker.Linker.Api.Handles.{
  Opened, dlopen, dlsym, found_address, BindsOnly, dlsym-resolve, dlopen_again,
}

abbrev text : SegmentCommand
text = record {
  name = SegmentName.text;
  vmaddr = 0;
  vmsize = 0x1000;
  fileoff = 0;
  filesize = 0x1000;
  is_writable = false;
  sections = [];
}

abbrev image : ℕ → ApiImage
image slide = record {
  object = record (new_object slide) { segments = text ∷ [] };
  header = slide;
  file_path = slide + 1;
  is_mach_o = true;
}

abbrev chain : List ApiImage
chain = image 0x5000 ∷ (image 0x6000 ∷ [])

-- The first address of the second image is taken for one of the first.
start_of_second : dladdr chain 0x6000 ≡ done (some (record { fname = 0x5001; fbase = 0x5000 }))
unfolding dladdr
start_of_second = refl

dladdr_finds_first_example :
    ((dladdr chain 0x6000 ≡ done none) × NotIn chain 0x6000)
    ⊎ ((before : List ApiImage) × (im : ApiImage) × (after : List ApiImage) × (chain
          ≡ before ++ (im ∷ after))
        × NotIn before 0x6000
        × InText im 0x6000
        × (dladdr chain 0x6000
            ≡ done (some (record { fname = im.file_path; fbase = im.object.slide }))))
dladdr_finds_first_example =
    dladdr_finds_first chain 0x6000 ((text, ([], refl)), ((text, ([], refl)), tt))

abbrev nothing : ClassicObject
nothing = record {
  compare_key = λ name k. less;
  tocoff = false;
  toc = λ k. k;
  ntoc = 0;
  iextdefsym = 0;
  nextdefsym = 3;
  n_value = λ k. k;
  is_thumb = λ k. false;
  slide = 0x5000;
}

abbrev images : Images
images = record { object = λ k. classic nothing; re_exports = λ k. [] }

dlsym-resolve_example :
    dlsym images 1 4 (b'f' ∷ []) ≡ found_address (resolve images (b'_' ∷ (b'f' ∷ [])) 1 (4 ∷ []) 7)
dlsym-resolve_example = dlsym-resolve images 1 4 (b'f' ∷ []) 7

abbrev opens : Prefix → ℕ → Option ℕ
opens plain p = if p == 10 then some 100 else none
opens system p = none
opens usr_lib p = if p == 11 then some 101 else none

-- The library behind the path 10 needs the one behind 11.
abbrev machine : Machine
machine = record {
  libsystem_path = 1;
  libgcc_path = 2;
  opens = opens;
  dylibs = λ file. if file == 100 then (11, false) ∷ [] else [];
  dylinker = some 0;
  instantiate = λ file. done tt;
  init = λ file. done tt;
  rebase = λ file im. done tt;
}

abbrev before_open : Opened
before_open = record {
  loader = record {
    chain = record { image = 0; orig_path = none } ∷ [];
    image_count = 1;
    next_object = 1;
    dependencies = [];
    rebased = [];
  };
  bound = [];
  initialized = [];
}

closed :
    (p file : ℕ)
    → contains (10 ∷ (11 ∷ [])) p ≡ true
    → open_library machine p ≡ some file
    → Within (10 ∷ (11 ∷ [])) (if file == 100 then (11, false) ∷ [] else []) × Works machine file
unfolding contains
closed p file h e = elim (Bool-cases (file == 100)) [
  | inl a ↦ rw a ((refl, tt), (refl, refl, λ im. refl))
  | inr a ↦ rw a (tt, (refl, refl, λ im. refl))
]

is_Sound : Sound before_open.loader
unfolding copies
is_Sound = (λ h. cc, λ q. omega arith)

two_left : unloaded (10 ∷ (11 ∷ [])) before_open.loader.chain ≡ 2
unfolding unloaded copies
two_left = refl

listed : contains (10 ∷ (11 ∷ [])) 10 ≡ true
unfolding contains
listed = refl

opens_ten : open_library machine 10 ≢ none
unfolding open_library
opens_ten h = cc

abbrev returns : ℕ → Result (Unit {0})
returns im = done tt

dlopen_again_example :
    (handle : ℕ) × (w' : Opened) × (dlopen returns returns machine 3 true 10 before_open
      ≡ done (handle, w'))
    × BindsOnly handle before_open w'
    × (dlopen returns returns machine 1 true 10 w' ≡ done (handle, w'))
dlopen_again_example =
    dlopen_again machine (10 ∷ (11 ∷ [])) (λ h. cc) closed returns returns (λ im. refl) (λ im. refl)
      3 0 10 true true before_open listed is_Sound (omega (arith, two_left)) refl opens_ten
