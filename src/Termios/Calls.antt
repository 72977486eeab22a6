-- ===== src/Termios/Calls.antt =====
-- `ioctl$BRIDGE$termios` of core/darwin_ioctl.c and the kernel behind it.
use lib_system_and_linker.Prelude.{
  ℕ, ◌≡◌, ◌∙◌, ap, sym, ◌≢◌, ◌⊎◌, inl, inr, refl, true, false, Option, none, some, List, ◌∷◌, arith,
}
use lib_system_and_linker.Termios.Words.{word_of, shift_left}
use lib_system_and_linker.Termios.Names.{
  input_flags, output_flags, control_flags, local_flags, sptab, linux_csize,
}
use lib_system_and_linker.Termios.Requests.{linux_tcgets}
use lib_system_and_linker.Termios.Convert.{
  Sdk, BsdTermios, LinuxTermios, minus_one, bsd_to_linux_speed, bsd_to_linux_termios,
  linux_to_bsd_termios,
}
use lib_system_and_linker.Termios.Masks.{separate, overlaps, SameFlags}
use lib_system_and_linker.Termios.Bridge.{
  Case, cases, find_case, Result, get_attributes, run_case, ioctl_bridge_termios,
}
use lib_system_and_linker.Termios.RoundTrip.{termios_roundtrip}
use lib_system_and_linker.Termios.Speed.{speed_roundtrip}

-- What a program reads where it has set `bios`: the flags of each word and both speeds.
pub record Survives (sdk : Sdk) (bios back : BsdTermios) : Type 0 where
  pub input : SameFlags sdk.mask sdk.mask back.c_iflag bios.c_iflag input_flags
  pub output : SameFlags sdk.mask sdk.mask back.c_oflag bios.c_oflag output_flags
  pub control : SameFlags sdk.mask sdk.mask back.c_cflag bios.c_cflag control_flags
  pub local : SameFlags sdk.mask sdk.mask back.c_lflag bios.c_lflag local_flags
  pub ispeed : back.c_ispeed ≡ bios.c_ispeed
  pub ospeed : back.c_ospeed ≡ bios.c_ispeed

find_case-head :
    (number : Case → ℕ) (c : Case) (cs : List Case) → find_case number (c ∷ cs) (number c) ≡ some c
unfolding find_case
find_case-head number c cs = ground arith

finds-tiocgeta :
    (number : Case → ℕ) → find_case number cases (number Case.tiocgeta) ≡ some Case.tiocgeta
unfolding cases
finds-tiocgeta number = find_case-head number Case.tiocgeta _

option_cases : (found : Option Case) → (found ≡ none) ⊎ ((c : Case) × (found ≡ some c))
option_cases none = inl refl
option_cases (some c) = inr (c, refl)

module _ (sdk : Sdk) (number : Case → ℕ) (set_call : ℕ → LinuxTermios → ℕ)
    (get_call : ℕ → ℕ × LinuxTermios) (call : ℕ → ℕ → ℕ) where
  pub bridge-finds :
      (request : ℕ) (c : Case) (bios : BsdTermios) (param garbage : ℕ)
      → find_case number cases request ≡ some c
      → ioctl_bridge_termios sdk number set_call get_call call request bios param garbage
        ≡ run_case sdk number set_call get_call call c bios param garbage
  unfolding ioctl_bridge_termios
  bridge-finds request c bios param garbage h = rw (ioctl_bridge_termios, h)

  bridge-default :
      (request : ℕ) (bios : BsdTermios) (param garbage : ℕ)
      → find_case number cases request ≡ none
      → (ioctl_bridge_termios sdk number set_call get_call call request bios param garbage).error
        ≡ garbage
  unfolding ioctl_bridge_termios
  bridge-default request bios param garbage h = rw (ioctl_bridge_termios, h)

  tiocgeta-reads :
      (lios : LinuxTermios) (old : BsdTermios) (param garbage : ℕ)
      → get_call linux_tcgets ≡ (0, lios)
      → run_case sdk number set_call get_call call Case.tiocgeta old param garbage
        ≡ record { error = 0; termios = linux_to_bsd_termios sdk lios }
  unfolding run_case get_attributes
  tiocgeta-reads lios old param garbage h = rw h

  case-error :
      (c : Case) (bios : BsdTermios) (param garbage other : ℕ)
      → ((c ≡ Case.tcioflush)
          × ((run_case sdk number set_call get_call call c bios param garbage).error ≡ garbage))
        ⊎ (run_case sdk number set_call get_call call c bios param garbage
            ≡ run_case sdk number set_call get_call call c bios param other)
  unfolding run_case
  case-error Case.tiocgeta bios param garbage other = inr refl
  case-error Case.tiocseta bios param garbage other = inr refl
  case-error Case.tiocsetaw bios param garbage other = inr refl
  case-error Case.tiocstop bios param garbage other = inr refl
  case-error Case.tiocstart bios param garbage other = inr refl
  case-error Case.tiocstat bios param garbage other = inr refl
  case-error Case.tiocsetaf bios param garbage other = inr refl
  case-error (Case.direct d) bios param garbage other = inr refl
  case-error Case.tcioflush bios param garbage other = inl (refl, refl)

  -- Where the kernel gives back the attributes that TIOCSETA handed it for `bios`, TIOCGETA returns 0
  -- and fills the program's structure with the flags of `bios` that the conversions know and with its
  -- input speed, as both speeds. The constants of termios.h are as in `termios_roundtrip`, and the
  -- speed is one of `sptab`.
  pub get_after_set :
      (bios old : BsdTermios) (param garbage : ℕ)
      → separate sdk.mask input_flags ≡ true
      → separate sdk.mask output_flags ≡ true
      → separate sdk.mask control_flags ≡ true
      → separate sdk.mask local_flags ≡ true
      → sdk.csize ≡ shift_left (word_of linux_csize) 4
      → overlaps sdk.mask control_flags sdk.csize ≡ false
      → bsd_to_linux_speed sdk.baud bios.c_ispeed sptab ≢ minus_one
      → get_call linux_tcgets ≡ (0, bsd_to_linux_termios sdk bios)
      → let r : Result =
          ioctl_bridge_termios sdk number set_call get_call call
            (number Case.tiocgeta)
            old
            param
            garbage in
        (r.error ≡ 0) × Survives sdk bios r.termios
  get_after_set bios old param garbage i o c l size apart known kept =
      let (input, output, control, local) = termios_roundtrip sdk bios i o c l size apart known in
      let (ispeed, ospeed) = speed_roundtrip sdk bios size known in
      rw reads (
        refl,
        record {
          input = input;
          output = output;
          control = control;
          local = local;
          ispeed = ispeed;
          ospeed = ospeed;
        },
      )
    where
      reads :
          ioctl_bridge_termios sdk number set_call get_call call
            (number Case.tiocgeta)
            old
            param
            garbage
          ≡ record { error = 0; termios = linux_to_bsd_termios sdk (bsd_to_linux_termios sdk bios) }
      reads =
          bridge-finds (number Case.tiocgeta) Case.tiocgeta old param garbage
            (finds-tiocgeta number)
          ∙ tiocgeta-reads (bsd_to_linux_termios sdk bios) old param garbage kept

  -- The value that the bridge returns depends on the variable `error` before the switch exactly in the
  -- default case and for TCIOFLUSH: there it is returned as it was.
  pub uninitialised_error :
      (request : ℕ) (bios : BsdTermios) (param garbage other : ℕ)
      → let run : ℕ → Result =
          ioctl_bridge_termios sdk number set_call get_call call request bios param in
        (((find_case number cases request ≡ none)
            ⊎ (find_case number cases request ≡ some Case.tcioflush))
          × ((run garbage).error ≡ garbage))
        ⊎ (run garbage ≡ run other)
  uninitialised_error request bios param garbage other =
      elim (option_cases (find_case number cases request)) [
        | inl unknown ↦ inl (inl unknown, bridge-default request bios param garbage unknown)
        | inr (c, found) ↦ elim (case-error c bios param garbage other) [
          | inl (flush, e) ↦
              inl (
                inr (found ∙ ap some flush),
                rw (bridge-finds request c bios param garbage found) e,
              )
          | inr same ↦ inr (
              bridge-finds request c bios param garbage found
              ∙ same
              ∙ sym (bridge-finds request c bios param other found))
        ]
      ]
