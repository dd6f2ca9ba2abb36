-- ===== src/Enums/People.antt =====
-- The enums of listener/enums/ as lists of (value, member name):
-- nationalities, platform, teams.
use formula1_app.Prelude.{[], ◌∷◌}
use formula1_app.Enums.Names.{Enum}

abbrev pub nationalities : Enum
nationalities =
    (0, "UNKNOWN")
    ∷ (1, "AMERICAN")
    ∷ (2, "ARGENTINEAN")
    ∷ (3, "AUSTRALIAN")
    ∷ (4, "AUSTRIAN")
    ∷ (5, "AZERBAIJANI")
    ∷ (6, "BAHRAINI")
    ∷ (7, "BELGIAN")
    ∷ (8, "BOLIVIAN")
    ∷ (9, "BRAZILIAN")
    ∷ (10, "BRITISH")
    ∷ (11, "BULGARIAN")
    ∷ (12, "CAMEROONIAN")
    ∷ (13, "CANADIAN")
    ∷ (14, "CHILEAN")
    ∷ (15, "CHINESE")
    ∷ (16, "COLOMBIAN")
    ∷ (17, "COSTA_RICAN")
    ∷ (18, "CROATIAN")
    ∷ (19, "CYPRIOT")
    ∷ (20, "CZECH")
    ∷ (21, "DANISH")
    ∷ (22, "DUTCH")
    ∷ (23, "ECUADORIAN")
    ∷ (24, "ENGLISH")
    ∷ (25, "EMIRIAN")
    ∷ (26, "ESTONIAN")
    ∷ (27, "FINNISH")
    ∷ (28, "FRENCH")
    ∷ (29, "GERMAN")
    ∷ (30, "GHANAIAN")
    ∷ (31, "GREEK")
    ∷ (32, "GUATEMALAN")
    ∷ (33, "HONDURAN")
    ∷ (34, "HONG_KONGER")
    ∷ (35, "HUNGARIAN")
    ∷ (36, "ICELANDER")
    ∷ (37, "INDIAN")
    ∷ (38, "INDONESIAN")
    ∷ (39, "IRISH")
    ∷ (40, "ISRAELI")
    ∷ (41, "ITALIAN")
    ∷ (42, "JAMAICAN")
    ∷ (43, "JAPANESE")
    ∷ (44, "JORDANIAN")
    ∷ (45, "KUWAITI")
    ∷ (46, "LATVIAN")
    ∷ (47, "LEBANESE")
    ∷ (48, "LITHUANIAN")
    ∷ (49, "LUXEMBOURGER")
    ∷ (50, "MALAYSIAN")
    ∷ (51, "MALTESE")
    ∷ (52, "MEXICAN")
    ∷ (53, "MONEGASQUE")
    ∷ (54, "NEW_ZEALANDER")
    ∷ (55, "NICARAGUAN")
    ∷ (56, "NORTHERN_IRISH")
    ∷ (57, "NORWEGIAN")
    ∷ (58, "OMANI")
    ∷ (59, "PAKISTANI")
    ∷ (60, "PANAMANIAN")
    ∷ (61, "PARAGUAYAN")
    ∷ (62, "PERUVIAN")
    ∷ (63, "POLISH")
    ∷ (64, "PORTUGUESE")
    ∷ (65, "QATARI")
    ∷ (66, "ROMANIAN")
    ∷ (68, "SALVADORAN")
    ∷ (69, "SAUDI")
    ∷ (70, "SCOTTISH")
    ∷ (71, "SERBIAN")
    ∷ (72, "SINGAPOREAN")
    ∷ (73, "SLOVAKIAN")
    ∷ (74, "SLOVENIAN")
    ∷ (75, "SOUTH_KOREAN")
    ∷ (76, "SOUTH_AFRICAN")
    ∷ (77, "SPANISH")
    ∷ (78, "SWEDISH")
    ∷ (79, "SWISS")
    ∷ (80, "THAI")
    ∷ (81, "TURKISH")
    ∷ (82, "URUGUAYAN")
    ∷ (83, "UKRAINIAN")
    ∷ (84, "VENEZUELAN")
    ∷ (85, "BARBADIAN")
    ∷ (86, "WELSH")
    ∷ (87, "VIETNAMESE")
    ∷ (88, "ALGERIAN")
    ∷ (89, "BOSNIAN")
    ∷ (90, "FILIPINO")
    ∷ (255, "NOT_SET")
    ∷ []

abbrev pub platform : Enum
platform =
    (0, "NONE")
    ∷ (1, "STEAM")
    ∷ (3, "PLAYSTATION")
    ∷ (4, "XBOX")
    ∷ (6, "ORIGIN")
    ∷ (255, "UNKNOWN")
    ∷ []

abbrev pub teams : Enum
teams =
    (65535, "UNKNOWN")
    ∷ (0, "MERCEDES")
    ∷ (1, "FERRARI")
    ∷ (2, "RED_BULL_RACING")
    ∷ (3, "WILLIAMS")
    ∷ (4, "ASTON_MARTIN")
    ∷ (5, "ALPINE")
    ∷ (6, "RB")
    ∷ (7, "HAAS")
    ∷ (8, "MCLAREN")
    ∷ (9, "SAUBER")
    ∷ (41, "F1_GENERIC")
    ∷ (104, "F1_CUSTOM_TEAM")
    ∷ (129, "KONNERSPORT")
    ∷ (142, "APXGP_24")
    ∷ (154, "APXGP_25")
    ∷ (155, "KONNERSPORT_24")
    ∷ (158, "ART_GP_24")
    ∷ (159, "CAMPOS_24")
    ∷ (160, "RODIN_MOTORSPORT_24")
    ∷ (161, "AIX_RACING_24")
    ∷ (162, "DAMS_24")
    ∷ (163, "HITECH_24")
    ∷ (164, "MP_MOTORSPORT_24")
    ∷ (165, "PREMA_24")
    ∷ (166, "TRIDENT_24")
    ∷ (167, "VAN_AMERSFOORT_RACING_24")
    ∷ (168, "INVICTA_24")
    ∷ (185, "MERCEDES_24")
    ∷ (186, "FERRARI_24")
    ∷ (187, "RED_BULL_RACING_24")
    ∷ (188, "WILLIAMS_24")
    ∷ (189, "ASTON_MARTIN_24")
    ∷ (190, "ALPINE_24")
    ∷ (191, "RB_24")
    ∷ (192, "HAAS_24")
    ∷ (193, "MCLAREN_24")
    ∷ (194, "SAUBER_24")
    ∷ (465, "ART_GP_25")
    ∷ (466, "CAMPOS_25")
    ∷ (467, "RODIN_MOTORSPORT_25")
    ∷ (468, "AIX_RACING_25")
    ∷ (469, "DAMS_25")
    ∷ (470, "HITECH_25")
    ∷ (471, "MP_MOTORSPORT_25")
    ∷ (472, "PREMA_25")
    ∷ (473, "TRIDENT_25")
    ∷ (474, "VAN_AMERSFOORT_RACING_25")
    ∷ (475, "INVICTA_25")
    ∷ (476, "MERCEDES_26")
    ∷ (477, "FERRARI_26")
    ∷ (478, "RED_BULL_RACING_26")
    ∷ (479, "WILLIAMS_26")
    ∷ (480, "ASTON_MARTIN_26")
    ∷ (481, "ALPINE_26")
    ∷ (482, "RB_26")
    ∷ (483, "HAAS_26")
    ∷ (484, "MCLAREN_26")
    ∷ (485, "AUDI_26")
    ∷ (486, "CADILLAC_26")
    ∷ []
