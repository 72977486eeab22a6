-- ===== src/Linker/Commands/Image.antt =====
-- `parseLoadCommands` of core/lnk_macho.cpp as a whole, and a LC_SYMTAB that stands too early.
use lib_system_and_linker.Prelude.{
  ℕ, ◌≡◌, ◌≢◌, refl, ap, sym, ◌∙◌, ◌==◌, Bool, true, false, if◌then◌else◌, List, [], ◌∷◌, ◌++◌,
  length, arith, Bool-cases, inl, inr,
}
use lib_system_and_linker.Linker.Stream.{Result, done, halts, ◌>>=◌}
use lib_system_and_linker.Linker.Stream.Ensures.{bind_assoc, bind-ap}
use lib_system_and_linker.Linker.Rebase.{Memory}
use lib_system_and_linker.Linker.Load.{Loader, Loading, load_dylibs}
use lib_system_and_linker.Linker.Commands.{
  Command, Commands, symtab, MachObject, Parsing, World, read_commands, parse_command,
  parse_commands, set_classic, process_segments, parse_load_commands,
}
use lib_system_and_linker.Linker.Commands.Parsed.{
  last_of, all_of, segment_of, dylib_of, linkedit_of, Ordered, summary, parse_commands-eq,
}

-- The variables before the first command.
abbrev pub unparsed : Bool → MachObject → Parsing
unparsed garbage o = record {
  object = o;
  compressed = garbage;
  symbol_table_strings = 0;
  symbol_table = 0;
}

-- The members behind the last command: those for the symbols are set where no LC_DYLD_INFO was seen.
abbrev pub members : Parsing → MachObject
members q = record q.object {
  is_classic = if q.compressed then q.object.is_classic else true;
  strings = if q.compressed then q.object.strings else q.symbol_table_strings;
  symbol_table = if q.compressed then q.object.symbol_table else q.symbol_table;
}

module _ (load : ℕ → Loader → Result (Loading × Loader)) (im : ℕ) where
  parse_commands-append :
      (cs ds : List (ℕ × Command)) (w : World)
      → parse_commands load im (cs ++ ds) w
        ≡ (parse_commands load im cs w >>= parse_commands load im ds)
  unfolding parse_commands
  parse_commands-append [] ds w = refl
  parse_commands-append ((a, c) ∷ cs) ds w =
      bind-ap (parse_command load im a c w) _ _ (parse_commands-append cs ds)
      ∙ sym (
          bind_assoc (parse_command load im a c w) (parse_commands load im cs)
            (parse_commands load im ds))

  -- A LC_SYMTAB with no base: the libraries of the commands before it are loaded, then the linker halts.
  pub symtab_without_linkedit :
      (cs rest : List (ℕ × Command)) (a stroff symoff : ℕ) (p : Parsing) (s : Loader)
      → Ordered p.object.slide (length p.object.segments) p.object.linkedit_base cs
      → last_of (linkedit_of p.object.slide) p.object.linkedit_base cs ≡ 0
      → parse_commands load im (cs ++ ((a, symtab stroff symoff) ∷ rest)) (p, s)
        ≡ (load_dylibs load im (all_of dylib_of cs) s >>= λ t. halts)
  unfolding parse_commands
  symtab_without_linkedit cs rest a stroff symoff p s ordered absent =
      parse_commands-append cs ((a, symtab stroff symoff) ∷ rest) (p, s)
      ∙ ap (λ m. m >>= parse_commands load im ((a, symtab stroff symoff) ∷ rest))
          (parse_commands-eq load im cs p s ordered)
      ∙ bind_assoc (load_dylibs load im (all_of dylib_of cs) s) _ _
      ∙ bind-ap (load_dylibs load im (all_of dylib_of cs) s) _ _ (λ t. rw absent refl)

  module _ (memory : Commands) (ncmds first environ : ℕ) (garbage : Bool) (after : Loader → Memory)
      (o : MachObject) (s : Loader) where
    -- Of an image that has commands, all of them ordered, the linker loads the libraries in the order of
    -- their commands; where the loads return, the object has what the commands say, its `fIsClassic` is
    -- set if no LC_DYLD_INFO was there and `compressed` was false by chance, and the sections of all
    -- segments are processed.
    pub parse_load_commands-eq :
        ncmds ≢ 0
        → Ordered o.slide (length o.segments) o.linkedit_base (read_commands memory ncmds first)
        → parse_load_commands load im memory ncmds first garbage environ after o s ≡ (
            load_dylibs load im (all_of dylib_of (read_commands memory ncmds first)) s >>= λ t.
            done (
              members (summary (unparsed garbage o) (read_commands memory ncmds first)),
              process_segments environ o.slide
                  (o.segments ++ all_of segment_of (read_commands memory ncmds first))
                  (after t),
              t,
            ))
    unfolding parse_load_commands
    parse_load_commands-eq some_command ordered =
        let cs = read_commands memory ncmds first in
        let more : (ncmds == 0) ≡ false = ground (arith, some_command) in
        let q = summary (unparsed garbage o) cs in
        rw (parse_load_commands, more)
          (ap (λ m. m >>= finish) (parse_commands-eq load im cs (unparsed garbage o) s ordered)
            ∙ bind_assoc (load_dylibs load im (all_of dylib_of cs) s) _ _
            ∙ bind-ap (load_dylibs load im (all_of dylib_of cs) s) _ _ (λ t. classic_keeps q t))
      where
        finish : World → Result (MachObject × Memory × Loader)
        finish (p, t) =
            let o' = set_classic p in
            done (o', process_segments environ o'.slide o'.segments (after t), t)

        classic_keeps :
            (q : Parsing) (t : Loader)
            → finish (q, t)
              ≡ done (
                members q,
                process_segments environ q.object.slide q.object.segments (after t),
                t,
              )
        classic_keeps q t = elim (Bool-cases q.compressed) [ inl y ↦ rw y | inr n ↦ rw n ]
