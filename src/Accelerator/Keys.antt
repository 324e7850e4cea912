-- ===== src/Accelerator/Keys.antt =====
-- The keys that atom/browser/ui/accelerator_util.cc names, and KeyboardCodeFromCharCode. The codes of
-- ui::KeyboardCode are a parameter of what uses them.
use atom_shell.Common.{ℕ, Bool, true, false, List, [], ◌∷◌, ◌==◌, if◌then◌else◌}

-- The constants of ui::KeyboardCode, without VKEY_.
pub data Key : Type 0 where
  unknown back tab return_key escape space key_a key_b key_c key_d key_e key_f key_g key_h : Key
  key_i key_j key_k key_l key_m key_n key_o key_p key_q key_r key_s key_t key_u key_v key_w : Key
  key_x key_y key_z key_0 key_1 key_2 key_3 key_4 key_5 key_6 key_7 key_8 key_9 oem_1 : Key
  oem_plus oem_comma oem_minus oem_period oem_2 oem_3 oem_4 oem_5 oem_6 oem_7 delete_key : Key
  insert_key up down left right home end_key prior next_key volume_mute volume_up : Key
  volume_down media_next_track media_prev_track media_stop media_play_pause f1 : Key

-- The cases of the switch: a character, its key, and whether it sets `shifted`.
abbrev pub char_codes : List (ℕ × Key × Bool)
char_codes =
    (8, back, false)
    ∷ (127, back, false)
    ∷ (9, tab, false)
    ∷ (13, return_key, false)
    ∷ (3, return_key, false)
    ∷ (27, escape, false)
    ∷ (32, space, false)
    ∷ (97, key_a, false)
    ∷ (98, key_b, false)
    ∷ (99, key_c, false)
    ∷ (100, key_d, false)
    ∷ (101, key_e, false)
    ∷ (102, key_f, false)
    ∷ (103, key_g, false)
    ∷ (104, key_h, false)
    ∷ (105, key_i, false)
    ∷ (106, key_j, false)
    ∷ (107, key_k, false)
    ∷ (108, key_l, false)
    ∷ (109, key_m, false)
    ∷ (110, key_n, false)
    ∷ (111, key_o, false)
    ∷ (112, key_p, false)
    ∷ (113, key_q, false)
    ∷ (114, key_r, false)
    ∷ (115, key_s, false)
    ∷ (116, key_t, false)
    ∷ (117, key_u, false)
    ∷ (118, key_v, false)
    ∷ (119, key_w, false)
    ∷ (120, key_x, false)
    ∷ (121, key_y, false)
    ∷ (122, key_z, false)
    ∷ (41, key_0, true)
    ∷ (48, key_0, false)
    ∷ (33, key_1, true)
    ∷ (49, key_1, false)
    ∷ (64, key_2, true)
    ∷ (50, key_2, false)
    ∷ (35, key_3, true)
    ∷ (51, key_3, false)
    ∷ (36, key_4, true)
    ∷ (52, key_4, false)
    ∷ (37, key_5, true)
    ∷ (53, key_5, false)
    ∷ (94, key_6, true)
    ∷ (54, key_6, false)
    ∷ (38, key_7, true)
    ∷ (55, key_7, false)
    ∷ (42, key_8, true)
    ∷ (56, key_8, false)
    ∷ (40, key_9, true)
    ∷ (57, key_9, false)
    ∷ (58, oem_1, true)
    ∷ (59, oem_1, false)
    ∷ (43, oem_plus, true)
    ∷ (61, oem_plus, false)
    ∷ (60, oem_comma, true)
    ∷ (44, oem_comma, false)
    ∷ (95, oem_minus, true)
    ∷ (45, oem_minus, false)
    ∷ (62, oem_period, true)
    ∷ (46, oem_period, false)
    ∷ (63, oem_2, true)
    ∷ (47, oem_2, false)
    ∷ (126, oem_3, true)
    ∷ (96, oem_3, false)
    ∷ (123, oem_4, true)
    ∷ (91, oem_4, false)
    ∷ (124, oem_5, true)
    ∷ (92, oem_5, false)
    ∷ (125, oem_6, true)
    ∷ (93, oem_6, false)
    ∷ (34, oem_7, true)
    ∷ (39, oem_7, false)
    ∷ []

abbrev pub find_char : ℕ → List (ℕ × Key × Bool) → Key × Bool
find_char c [] = (unknown, false)
find_char c ((d, key, shifted) ∷ rest) = if d == c then (key, shifted) else find_char c rest

-- The key of a character, and whether shift has to be held.
unfoldable pub keyboard_code_from_char_code : ℕ → Key × Bool
keyboard_code_from_char_code c = find_char c char_codes
