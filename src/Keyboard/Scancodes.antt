-- ===== src/Keyboard/Scancodes.antt =====
-- The tables and macros of TP2-SO-2025/Kernel/drivers/keyboard.c, with the codes of
-- TP2-SO-2025/Kernel/include/keyboard.h.
use tp_so_grupo.Base.{
  ℕ, ◌-◌, ◌+◌, ◌%◌, List, [], ◌∷◌, Bool, ◌&&◌, ◌||◌, ◌==◌, leb, ltb, if◌then◌else◌,
}

-- `scancodeMap`: what a key stands for without and with shift.
abbrev pub scancode_map : List (ℕ × ℕ)
scancode_map =
    (0, 0)
    ∷ (1, 1)
    ∷ (49, 33)
    ∷ (50, 64)
    ∷ (51, 35)
    ∷ (52, 36)
    ∷ (53, 37)
    ∷ (54, 94)
    ∷ (55, 38)
    ∷ (56, 42)
    ∷ (57, 40)
    ∷ (48, 41)
    ∷ (45, 95)
    ∷ (61, 43)
    ∷ (14, 14)
    ∷ (15, 15)
    ∷ (113, 81)
    ∷ (119, 87)
    ∷ (101, 69)
    ∷ (114, 82)
    ∷ (116, 84)
    ∷ (121, 89)
    ∷ (117, 85)
    ∷ (105, 73)
    ∷ (111, 79)
    ∷ (112, 80)
    ∷ (91, 123)
    ∷ (93, 125)
    ∷ (28, 28)
    ∷ (29, 29)
    ∷ (97, 65)
    ∷ (115, 83)
    ∷ (100, 68)
    ∷ (102, 70)
    ∷ (103, 71)
    ∷ (104, 72)
    ∷ (106, 74)
    ∷ (107, 75)
    ∷ (108, 76)
    ∷ (59, 58)
    ∷ (39, 34)
    ∷ (96, 126)
    ∷ (42, 42)
    ∷ (92, 124)
    ∷ (122, 90)
    ∷ (120, 88)
    ∷ (99, 67)
    ∷ (118, 86)
    ∷ (98, 66)
    ∷ (110, 78)
    ∷ (109, 77)
    ∷ (44, 60)
    ∷ (46, 62)
    ∷ (47, 63)
    ∷ (54, 54)
    ∷ (42, 42)
    ∷ (56, 184)
    ∷ (32, 32)
    ∷ (58, 58)
    ∷ (59, 59)
    ∷ (60, 60)
    ∷ (61, 61)
    ∷ (62, 62)
    ∷ (63, 63)
    ∷ (64, 64)
    ∷ (65, 65)
    ∷ (66, 66)
    ∷ (67, 67)
    ∷ (68, 68)
    ∷ (69, 69)
    ∷ (70, 70)
    ∷ (71, 55)
    ∷ (72, 56)
    ∷ (73, 57)
    ∷ (45, 45)
    ∷ (75, 52)
    ∷ (76, 53)
    ∷ (77, 54)
    ∷ (43, 43)
    ∷ (79, 49)
    ∷ (80, 50)
    ∷ (81, 51)
    ∷ (82, 48)
    ∷ (83, 46)
    ∷ (0, 0)
    ∷ (0, 0)
    ∷ (45, 45)
    ∷ (87, 87)
    ∷ (88, 88)
    ∷ []

abbrev pub is_keycode : ℕ → Bool
is_keycode c = leb 0x01 c && leb c 0x58

abbrev between : ℕ → ℕ → ℕ → Bool
between a b c = leb a c && leb c b

abbrev pub is_printable : (shift : Bool) → ℕ → Bool
is_printable shift c =
    is_keycode c
    && (between 0x02 0x0D c
        || (between 0x0F 0x1C c
            || (between 0x1E 0x29 c
                || (between 0x2B 0x35 c
                    || (c == 0x37
                        || (c == 0x39
                            || ((shift && between 0x47 0x53 c)
                                || (c == 0x4A || (c == 0x4E || c == 0x56)))))))))

abbrev pub to_upper : ℕ → ℕ
to_upper c = if between b'a' b'z' c then c - b'a' + b'A' else c

abbrev pub is_pressed : ℕ → Bool
is_pressed scancode = ltb scancode 0x80

abbrev pub make_code : ℕ → ℕ
make_code scancode = scancode % 0x80
