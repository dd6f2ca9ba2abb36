-- ===== src/Enums/Events.antt =====
-- The enums of listener/enums/ as lists of (value, member name):
-- button_flags, safety_car_status, safety_car_event_type, drs_disabled_reason,
-- penalty_type, infringement_type, result_reason, result_status.
use formula1_app.Prelude.{[], ◌∷◌}
use formula1_app.Enums.Names.{Enum}

abbrev pub button_flags : Enum
button_flags =
    (1, "CROSS")
    ∷ (2, "TRIANGLE")
    ∷ (4, "CIRCLE")
    ∷ (8, "SQUARE")
    ∷ (16, "D_PAD_LEFT")
    ∷ (32, "D_PAD_RIGHT")
    ∷ (64, "D_PAD_UP")
    ∷ (128, "D_PAD_DOWN")
    ∷ (256, "OPTIONS_MENU")
    ∷ (512, "L1")
    ∷ (1024, "R1")
    ∷ (2048, "L2")
    ∷ (4096, "R2")
    ∷ (8192, "LEFT_STICK_CLICK")
    ∷ (16384, "RIGHT_STICK_CLICK")
    ∷ (32768, "RIGHT_STICK_LEFT")
    ∷ (65536, "RIGHT_STICK_RIGHT")
    ∷ (131072, "RIGHT_STICK_UP")
    ∷ (262144, "RIGHT_STICK_DOWN")
    ∷ (524288, "SPECIAL")
    ∷ (1048576, "UDP_ACTION_1")
    ∷ (2097152, "UDP_ACTION_2")
    ∷ (4194304, "UDP_ACTION_3")
    ∷ (8388608, "UDP_ACTION_4")
    ∷ (16777216, "UDP_ACTION_5")
    ∷ (33554432, "UDP_ACTION_6")
    ∷ (67108864, "UDP_ACTION_7")
    ∷ (134217728, "UDP_ACTION_8")
    ∷ (268435456, "UDP_ACTION_9")
    ∷ (536870912, "UDP_ACTION_10")
    ∷ (1073741824, "UDP_ACTION_11")
    ∷ (2147483648, "UDP_ACTION_12")
    ∷ []

abbrev pub safety_car_status : Enum
safety_car_status = (0, "NONE") ∷ (1, "FULL") ∷ (2, "VIRTUAL") ∷ (3, "FORMATION_LAP") ∷ []

abbrev pub safety_car_event_type : Enum
safety_car_event_type =
    (0, "DEPLOYED") ∷ (1, "RETURNING") ∷ (2, "RETURNED") ∷ (3, "RESUME_RACE") ∷ []

abbrev pub drs_disabled_reason : Enum
drs_disabled_reason =
    (0, "WET_TRACK")
    ∷ (1, "SAFETY_CAR_DEPLOYED")
    ∷ (2, "RED_FLAG")
    ∷ (3, "MIN_LAP_NOT_REACHED")
    ∷ []

abbrev pub penalty_type : Enum
penalty_type =
    (0, "DRIVE_THROUGH")
    ∷ (1, "STOP_GO")
    ∷ (2, "GRID_PENALTY")
    ∷ (3, "PENALTY_REMINDER")
    ∷ (4, "TIME_PENALTY")
    ∷ (5, "WARNING")
    ∷ (6, "DISQUALIFIED")
    ∷ (7, "REMOVED_FROM_FORMATION_LAP")
    ∷ (8, "PARKED_TOO_LONG_TIMER")
    ∷ (9, "TYRE_REGULATIONS")
    ∷ (10, "THIS_LAP_INVALIDATED")
    ∷ (11, "THIS_AND_NEXT_LAP_INVALIDATED")
    ∷ (12, "THIS_LAP_INVALIDATED_WITHOUT_REASON")
    ∷ (13, "THIS_AND_NEXT_LAP_INVALIDATED_WITHOUT_REASON")
    ∷ (14, "THIS_AND_PREVIOUS_LAP_INVALIDATED")
    ∷ (15, "THIS_AND_PREVIOUS_LAP_INVALIDATED_WITHOUT_REASON")
    ∷ (16, "RETIRED")
    ∷ (17, "BLACK_FLAG_TIMER")
    ∷ []

abbrev pub infringement_type : Enum
infringement_type =
    (0, "BLOCKING_BY_SLOW_DRIVING")
    ∷ (1, "BLOCKING_BY_WRONG_WAY_DRIVING")
    ∷ (2, "REVERSING_OFF_THE_START_LINE")
    ∷ (3, "BIG_COLLISION")
    ∷ (4, "SMALL_COLLISION")
    ∷ (5, "COLLISION_FAILED_TO_HAND_BACK_POSITION_SINGLE")
    ∷ (6, "COLLISION_FAILED_TO_HAND_BACK_POSITION_MULTIPLE")
    ∷ (7, "CORNER_CUTTING_GAINED_TIME")
    ∷ (8, "CORNER_CUTTING_OVERTAKE_SINGLE")
    ∷ (9, "CORNER_CUTTING_OVERTAKE_MULTIPLE")
    ∷ (10, "CROSSED_PIT_EXIT_LANE")
    ∷ (11, "IGNORING_BLUE_FLAGS")
    ∷ (12, "IGNORING_YELLOW_FLAGS")
    ∷ (13, "IGNORING_DRIVE_THROUGH")
    ∷ (14, "TOO_MANY_DRIVE_THROUGHS")
    ∷ (15, "DRIVE_THROUGH_REMINDER_SERVE_WITHIN_N_LAPS")
    ∷ (16, "DRIVE_THROUGH_REMINDER_SERVE_THIS_LAP")
    ∷ (17, "PIT_LANE_SPEEDING")
    ∷ (18, "PARKED_FOR_TOO_LONG")
    ∷ (19, "IGNORING_TYRE_REGULATIONS")
    ∷ (20, "TOO_MANY_PENALTIES")
    ∷ (21, "MULTIPLE_WARNINGS")
    ∷ (22, "APPROACHING_DISQUALIFICATION")
    ∷ (23, "TYRE_REGULATIONS_SELECT_SINGLE")
    ∷ (24, "TYRE_REGULATIONS_SELECT_MULTIPLE")
    ∷ (25, "LAP_INVALIDATED_CORNER_CUTTING")
    ∷ (26, "LAP_INVALIDATED_RUNNING_WIDE")
    ∷ (27, "CORNER_CUTTING_RAN_WIDE_GAINED_TIME_MINOR")
    ∷ (28, "CORNER_CUTTING_RAN_WIDE_GAINED_TIME_SIGNIFICANT")
    ∷ (29, "CORNER_CUTTING_RAN_WIDE_GAINED_TIME_EXTREME")
    ∷ (30, "LAP_INVALIDATED_WALL_RIDING")
    ∷ (31, "LAP_INVALIDATED_FLASHBACK_USED")
    ∷ (32, "LAP_INVALIDATED_RESET_TO_TRACK")
    ∷ (33, "BLOCKING_THE_PITLANE")
    ∷ (34, "JUMP_START")
    ∷ (35, "SAFETY_CAR_TO_CAR_COLLISION")
    ∷ (36, "SAFETY_CAR_ILLEGAL_OVERTAKE")
    ∷ (37, "SAFETY_CAR_EXCEEDING_ALLOWED_PACE")
    ∷ (38, "VIRTUAL_SAFETY_CAR_EXCEEDING_ALLOWED_PACE")
    ∷ (39, "FORMATION_LAP_BELOW_ALLOWED_SPEED")
    ∷ (40, "FORMATION_LAP_PARKING")
    ∷ (41, "RETIRED_MECHANICAL_FAILURE")
    ∷ (42, "RETIRED_TERMINALLY_DAMAGED")
    ∷ (43, "SAFETY_CAR_FALLING_TOO_FAR_BACK")
    ∷ (44, "BLACK_FLAG_TIMER")
    ∷ (45, "UNSERVED_STOP_GO_PENALTY")
    ∷ (46, "UNSERVED_DRIVE_THROUGH_PENALTY")
    ∷ (47, "ENGINE_COMPONENT_CHANGE")
    ∷ (48, "GEARBOX_CHANGE")
    ∷ (49, "PARC_FERME_CHANGE")
    ∷ (50, "LEAGUE_GRID_PENALTY")
    ∷ (51, "RETRY_PENALTY")
    ∷ (52, "ILLEGAL_TIME_GAIN")
    ∷ (53, "MANDATORY_PITSTOP")
    ∷ (54, "ATTRIBUTE_ASSIGNED")
    ∷ []

abbrev pub result_reason : Enum
result_reason =
    (0, "INVALID")
    ∷ (1, "RETIRED")
    ∷ (2, "FINISHED")
    ∷ (3, "TERMINAL_DAMAGE")
    ∷ (4, "INACTIVE")
    ∷ (5, "NOT_ENOUGH_LAPS")
    ∷ (6, "BLACK_FLAGGED")
    ∷ (7, "RED_FLAGGED")
    ∷ (8, "MECHANICAL_FAILURE")
    ∷ (9, "SESSION_SKIPPED")
    ∷ (10, "SESSION_SIMULATED")
    ∷ []

abbrev pub result_status : Enum
result_status =
    (0, "INVALID")
    ∷ (1, "INACTIVE")
    ∷ (2, "ACTIVE")
    ∷ (3, "FINISHED")
    ∷ (4, "DID_NOT_FINISH")
    ∷ (5, "DISQUALIFIED")
    ∷ (6, "NOT_CLASSIFIED")
    ∷ (7, "RETIRED")
    ∷ []
