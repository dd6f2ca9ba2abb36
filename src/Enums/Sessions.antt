-- ===== src/Enums/Sessions.antt =====
-- The enums of listener/enums/ as lists of (value, member name):
-- session_types, formula, game_modes, rulesets,
-- weather, temperature_change, flag_status, tracks.
use formula1_app.Prelude.{[], ◌∷◌}
use formula1_app.Enums.Names.{Enum}

abbrev pub session_type_ids : Enum
session_type_ids =
    (0, "UNKNOWN")
    ∷ (1, "PRACTICE_1")
    ∷ (2, "PRACTICE_2")
    ∷ (3, "PRACTICE_3")
    ∷ (4, "SHORT_PRACTICE")
    ∷ (5, "QUALIFYING_1")
    ∷ (6, "QUALIFYING_2")
    ∷ (7, "QUALIFYING_3")
    ∷ (8, "SHORT_QUALIFYING")
    ∷ (9, "ONE_SHOT_QUALIFYING")
    ∷ (10, "SPRINT_SHOOTOUT_1")
    ∷ (11, "SPRINT_SHOOTOUT_2")
    ∷ (12, "SPRINT_SHOOTOUT_3")
    ∷ (13, "SHORT_SPRINT_SHOOTOUT")
    ∷ (14, "ONE_SHOT_SPRINT_SHOOTOUT")
    ∷ (15, "RACE")
    ∷ (16, "RACE_2")
    ∷ (17, "RACE_3")
    ∷ (18, "TIME_TRIAL")
    ∷ (100, "SPRINT_RACE")
    ∷ []

abbrev pub formula : Enum
formula =
    (0, "F1_MODERN")
    ∷ (1, "F1_CLASSIC")
    ∷ (2, "F2")
    ∷ (3, "F1_GENERIC")
    ∷ (4, "BETA")
    ∷ (6, "ESPORTS")
    ∷ (8, "F1_WORLD")
    ∷ (9, "F1_ELIMINATION")
    ∷ (13, "F1_26")
    ∷ []

abbrev pub game_mode_ids : Enum
game_mode_ids =
    (0, "NONE")
    ∷ (255, "UNKNOWN")
    ∷ (4, "GRAND_PRIX_23")
    ∷ (5, "TIME_TRIAL")
    ∷ (6, "SPLITSCREEN")
    ∷ (7, "ONLINE_CUSTOM")
    ∷ (15, "ONLINE_WEEKLY_EVENT")
    ∷ (17, "STORY_MODE")
    ∷ (27, "MY_TEAM_CAREER_25")
    ∷ (28, "DRIVER_CAREER_25")
    ∷ (29, "CAREER_25_ONLINE")
    ∷ (30, "CHALLENGE_CAREER_25")
    ∷ (75, "STORY_MODE_APXGP")
    ∷ (127, "BENCHMARK")
    ∷ []

abbrev pub ruleset_ids : Enum
ruleset_ids =
    (255, "UNKNOWN")
    ∷ (0, "PRACTICE_QUALIFYING")
    ∷ (1, "RACE")
    ∷ (2, "TIME_TRIAL")
    ∷ (12, "ELIMINATION")
    ∷ []

abbrev pub weather_ids : Enum
weather_ids =
    (255, "UNKNOWN")
    ∷ (0, "CLEAR")
    ∷ (1, "LIGHT_CLOUD")
    ∷ (2, "OVERCAST")
    ∷ (3, "LIGHT_RAIN")
    ∷ (4, "HEAVY_RAIN")
    ∷ (5, "STORM")
    ∷ []

abbrev pub temperature_change : Enum
temperature_change = (0, "UP") ∷ (1, "DOWN") ∷ (2, "NO_CHANGE") ∷ []

abbrev pub flag_status : Enum
flag_status = (255, "UNKNOWN") ∷ (0, "NONE") ∷ (1, "GREEN") ∷ (2, "BLUE") ∷ (3, "YELLOW") ∷ []

abbrev pub track_ids : Enum
track_ids =
    (255, "UNKNOWN")
    ∷ (0, "MELBOURNE")
    ∷ (2, "SHANGHAI")
    ∷ (3, "SAKHIR_BAHRAIN")
    ∷ (4, "CATALUNYA")
    ∷ (5, "MONACO")
    ∷ (6, "MONTREAL")
    ∷ (7, "SILVERSTONE")
    ∷ (9, "HUNGARORING")
    ∷ (10, "SPA")
    ∷ (11, "MONZA")
    ∷ (12, "SINGAPORE")
    ∷ (13, "SUZUKA")
    ∷ (14, "ABU_DHABI")
    ∷ (15, "TEXAS")
    ∷ (16, "BRAZIL")
    ∷ (17, "AUSTRIA")
    ∷ (19, "MEXICO")
    ∷ (20, "BAKU_AZERBAIJAN")
    ∷ (26, "ZANDVOORT")
    ∷ (27, "IMOLA")
    ∷ (29, "JEDDAH")
    ∷ (30, "MIAMI")
    ∷ (31, "LAS_VEGAS")
    ∷ (32, "LOSAIL")
    ∷ (39, "SILVERSTONE_REVERSE")
    ∷ (40, "AUSTRIA_REVERSE")
    ∷ (41, "ZANDVOORT_REVERSE")
    ∷ (42, "MADRID")
    ∷ []
