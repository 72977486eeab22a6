-- ===== src/Termios/Slots.antt =====
-- The control characters of core/darwin_ioctl.c and their indices.
use lib_system_and_linker.Prelude.{
  ℕ, ◌==◌, ◌≡◌, refl, sym, ap, ◌∙◌, ◌||◌, if◌then◌else◌, Bool, true, false, ℕ_discrete, List, [],
  ◌∷◌, arith,
}
use lib_system_and_linker.Termios.Names.{ControlChar, control_chars, linux_slot}

-- VMIN and VTIME, which are numbers and no characters.
unfoldable pub timed : ControlChar → Bool
timed ControlChar.vintr = false
timed ControlChar.vquit = false
timed ControlChar.verase = false
timed ControlChar.vkill = false
timed ControlChar.veof = false
timed ControlChar.veol = false
timed ControlChar.vmin = true
timed ControlChar.vtime = true
timed ControlChar.veol2 = false
timed ControlChar.vsusp = false
timed ControlChar.vstart = false
timed ControlChar.vstop = false
timed ControlChar.vreprint = false
timed ControlChar.vdiscard = false
timed ControlChar.vwerase = false
timed ControlChar.vlnext = false

linux_char : ℕ → ControlChar
linux_char i =
    (if i == 16
      then ControlChar.veol2
      else (if i == 15
          then ControlChar.vlnext
          else (if i == 14
              then ControlChar.vwerase
              else (if i == 13
                  then ControlChar.vdiscard
                  else (if i == 12
                      then ControlChar.vreprint
                      else (if i == 11
                          then ControlChar.veol
                          else (if i == 10
                              then ControlChar.vsusp
                              else (if i == 9
                                  then ControlChar.vstop
                                  else (if i == 8
                                      then ControlChar.vstart
                                      else (if i == 6
                                          then ControlChar.vmin
                                          else (if i == 5
                                              then ControlChar.vtime
                                              else (if i == 4
                                                  then ControlChar.veof
                                                  else (if i == 3
                                                      then ControlChar.vkill
                                                      else (if i == 2
                                                          then ControlChar.verase
                                                          else (if i == 1
                                                            then ControlChar.vquit
                                                            else (if i == 0
                                                            then ControlChar.vintr
                                                            else ControlChar.vmin))))))))))))))))

linux_char_lem : (c : ControlChar) → linux_char (linux_slot c) ≡ c
unfolding linux_char linux_slot
linux_char_lem ControlChar.vintr = refl
linux_char_lem ControlChar.vquit = refl
linux_char_lem ControlChar.verase = refl
linux_char_lem ControlChar.vkill = refl
linux_char_lem ControlChar.veof = refl
linux_char_lem ControlChar.veol = refl
linux_char_lem ControlChar.vmin = refl
linux_char_lem ControlChar.vtime = refl
linux_char_lem ControlChar.veol2 = refl
linux_char_lem ControlChar.vsusp = refl
linux_char_lem ControlChar.vstart = refl
linux_char_lem ControlChar.vstop = refl
linux_char_lem ControlChar.vreprint = refl
linux_char_lem ControlChar.vdiscard = refl
linux_char_lem ControlChar.vwerase = refl
linux_char_lem ControlChar.vlnext = refl

pub linux_slot-injective : (c d : ControlChar) → linux_slot c ≡ linux_slot d → c ≡ d
linux_slot-injective c d e = sym (linux_char_lem c) ∙ ap linux_char e ∙ linux_char_lem d

pub linux-timed :
    (c : ControlChar)
    → (linux_slot c == linux_slot ControlChar.vmin || linux_slot c == linux_slot ControlChar.vtime)
      ≡ timed c
unfolding linux_slot timed
linux-timed ControlChar.vintr = refl
linux-timed ControlChar.vquit = refl
linux-timed ControlChar.verase = refl
linux-timed ControlChar.vkill = refl
linux-timed ControlChar.veof = refl
linux-timed ControlChar.veol = refl
linux-timed ControlChar.vmin = refl
linux-timed ControlChar.vtime = refl
linux-timed ControlChar.veol2 = refl
linux-timed ControlChar.vsusp = refl
linux-timed ControlChar.vstart = refl
linux-timed ControlChar.vstop = refl
linux-timed ControlChar.vreprint = refl
linux-timed ControlChar.vdiscard = refl
linux-timed ControlChar.vwerase = refl
linux-timed ControlChar.vlnext = refl

-- `c` is in the list.
unfoldable pub listed : List ControlChar → ControlChar → Bool
listed [] c = false
listed (d ∷ ds) c = linux_slot d == linux_slot c || listed ds c

pub all-listed : (c : ControlChar) → listed control_chars c ≡ true
unfolding listed linux_slot
all-listed ControlChar.vintr = refl
all-listed ControlChar.vquit = refl
all-listed ControlChar.verase = refl
all-listed ControlChar.vkill = refl
all-listed ControlChar.veof = refl
all-listed ControlChar.veol = refl
all-listed ControlChar.vmin = refl
all-listed ControlChar.vtime = refl
all-listed ControlChar.veol2 = refl
all-listed ControlChar.vsusp = refl
all-listed ControlChar.vstart = refl
all-listed ControlChar.vstop = refl
all-listed ControlChar.vreprint = refl
all-listed ControlChar.vdiscard = refl
all-listed ControlChar.vwerase = refl
all-listed ControlChar.vlnext = refl

-- Two numberings without repetitions agree on which characters are the same.
pub same-test :
    (f g : ControlChar → ℕ) (c d : ControlChar)
    → ((c d : ControlChar) → f c ≡ f d → c ≡ d)
    → ((c d : ControlChar) → g c ≡ g d → c ≡ d)
    → (f c == f d) ≡ (g c == g d)
same-test f g c d inj_f inj_g = elim (ℕ_discrete (f c) (f d)) [
  | yes e ↦ ground (arith, ap g (inj_f c d e))
  | no n ↦ elim (ℕ_discrete (g c) (g d)) [
    | yes e ↦ absurd (n (ap f (inj_g c d e)))
    | no m ↦ ground arith
  ]
]
