-- ===== src/MallocZone/Runs.antt =====
-- Runs of core/malloc_zone.c on a table of two zones.
use lib_system_and_linker.Prelude.{none, [], ◌∷◌}
use lib_system_and_linker.MallocZone.{Zones, blank}

abbrev two : Zones
two = record { malloc_lock = 0; zones = blank ∷ blank ∷ []; default_zone = none }
