-- ===== src/Enums/Car.antt =====
-- The enums of listener/enums/ as lists of (value, member name):
-- actual_tyre_compound, visual_tyre_compound, driver_status, pit_status,
-- surface_type, sector.
use formula1_app.Prelude.{[], ◌∷◌}
use formula1_app.Enums.Names.{Enum}

abbrev pub actual_tyre_compound : Enum
actual_tyre_compound =
    (0, "NONE")
    ∷ (7, "INTER")
    ∷ (8, "WET")
    ∷ (9, "CLASSIC_DRY")
    ∷ (10, "CLASSIC_WET")
    ∷ (11, "F2_SUPER_SOFT")
    ∷ (12, "F2_SOFT")
    ∷ (13, "F2_MEDIUM")
    ∷ (14, "F2_HARD")
    ∷ (15, "F2_WET")
    ∷ (16, "C5")
    ∷ (17, "C4")
    ∷ (18, "C3")
    ∷ (19, "C2")
    ∷ (20, "C1")
    ∷ (21, "C0")
    ∷ (22, "C6")
    ∷ []

abbrev pub visual_tyre_compound : Enum
visual_tyre_compound =
    (0, "NONE")
    ∷ (7, "INTER")
    ∷ (8, "WET")
    ∷ (15, "F2_WET")
    ∷ (16, "SOFT")
    ∷ (17, "MEDIUM")
    ∷ (18, "HARD")
    ∷ (19, "F2_SUPER_SOFT")
    ∷ (20, "F2_SOFT")
    ∷ (21, "F2_MEDIUM")
    ∷ (22, "F2_HARD")
    ∷ []

abbrev pub driver_status : Enum
driver_status =
    (0, "IN_GARAGE") ∷ (1, "FLYING_LAP") ∷ (2, "IN_LAP") ∷ (3, "OUT_LAP") ∷ (4, "ON_TRACK") ∷ []

abbrev pub pit_status : Enum
pit_status = (0, "NONE") ∷ (1, "PITTING") ∷ (2, "IN_PIT_AREA") ∷ []

abbrev pub surface_type : Enum
surface_type =
    (0, "TARMAC")
    ∷ (1, "RUMBLE_STRIP")
    ∷ (2, "CONCRETE")
    ∷ (3, "ROCK")
    ∷ (4, "GRAVEL")
    ∷ (5, "MUD")
    ∷ (6, "SAND")
    ∷ (7, "GRASS")
    ∷ (8, "WATER")
    ∷ (9, "COBBLESTONE")
    ∷ (10, "METAL")
    ∷ (11, "RIDGED")
    ∷ []

abbrev pub sector : Enum
sector = (0, "SECTOR_1") ∷ (1, "SECTOR_2") ∷ (2, "SECTOR_3") ∷ []
