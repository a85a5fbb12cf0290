-- ===== src/Events/Codes.antt =====
-- GoldfishEventsDxe.c: the Linux input event codes of the keyboard, and the tables that they index.
use edk2_uemu.Common.{ℕ, ◌+◌, ◌-◌, List, [], ◌∷◌, ◌++◌, length, replicate}
use edk2_uemu.Text.{codes}

-- KEY_ESC to KEY_DELETE
pub data KeyCode : Type 0 where
  key_esc key_1 key_2 key_3 key_4 key_5 : KeyCode
  key_6 key_7 key_8 key_9 key_0 key_minus : KeyCode
  key_equal key_backspace key_tab key_q key_w key_e : KeyCode
  key_r key_t key_y key_u key_i key_o : KeyCode
  key_p key_leftbrace key_rightbrace key_enter key_leftctrl key_a : KeyCode
  key_s key_d key_f key_g key_h key_j : KeyCode
  key_k key_l key_semicolon key_apostrophe key_grave key_leftshift : KeyCode
  key_backslash key_z key_x key_c key_v key_b : KeyCode
  key_n key_m key_comma key_dot key_slash key_rightshift : KeyCode
  key_leftalt key_space key_capslock key_f1 key_f2 key_f3 : KeyCode
  key_f4 key_f5 key_f6 key_f7 key_f8 key_f9 : KeyCode
  key_f10 key_numlock key_scrolllock key_rightctrl key_rightalt key_home : KeyCode
  key_up key_pageup key_left key_right key_end key_down : KeyCode
  key_pagedown key_insert key_delete : KeyCode

abbrev pub code_of : KeyCode → ℕ
code_of key_esc = 1
code_of key_1 = 2
code_of key_2 = 3
code_of key_3 = 4
code_of key_4 = 5
code_of key_5 = 6
code_of key_6 = 7
code_of key_7 = 8
code_of key_8 = 9
code_of key_9 = 10
code_of key_0 = 11
code_of key_minus = 12
code_of key_equal = 13
code_of key_backspace = 14
code_of key_tab = 15
code_of key_q = 16
code_of key_w = 17
code_of key_e = 18
code_of key_r = 19
code_of key_t = 20
code_of key_y = 21
code_of key_u = 22
code_of key_i = 23
code_of key_o = 24
code_of key_p = 25
code_of key_leftbrace = 26
code_of key_rightbrace = 27
code_of key_enter = 28
code_of key_leftctrl = 29
code_of key_a = 30
code_of key_s = 31
code_of key_d = 32
code_of key_f = 33
code_of key_g = 34
code_of key_h = 35
code_of key_j = 36
code_of key_k = 37
code_of key_l = 38
code_of key_semicolon = 39
code_of key_apostrophe = 40
code_of key_grave = 41
code_of key_leftshift = 42
code_of key_backslash = 43
code_of key_z = 44
code_of key_x = 45
code_of key_c = 46
code_of key_v = 47
code_of key_b = 48
code_of key_n = 49
code_of key_m = 50
code_of key_comma = 51
code_of key_dot = 52
code_of key_slash = 53
code_of key_rightshift = 54
code_of key_leftalt = 56
code_of key_space = 57
code_of key_capslock = 58
code_of key_f1 = 59
code_of key_f2 = 60
code_of key_f3 = 61
code_of key_f4 = 62
code_of key_f5 = 63
code_of key_f6 = 64
code_of key_f7 = 65
code_of key_f8 = 66
code_of key_f9 = 67
code_of key_f10 = 68
code_of key_numlock = 69
code_of key_scrolllock = 70
code_of key_rightctrl = 97
code_of key_rightalt = 100
code_of key_home = 102
code_of key_up = 103
code_of key_pageup = 104
code_of key_left = 105
code_of key_right = 106
code_of key_end = 107
code_of key_down = 108
code_of key_pagedown = 109
code_of key_insert = 110
code_of key_delete = 111

-- MAX_KEYBOARD_CODE
abbrev pub max_keyboard_code : ℕ
max_keyboard_code = 112

-- An array from an index on, whose last element is the one of MAX_KEYBOARD_CODE: each designator names
-- the index of the first of its values, in ascending order, and what has no value is 0.
abbrev pub initialize_from : ℕ → List (KeyCode × List ℕ) → List ℕ
initialize_from index [] = replicate (max_keyboard_code + 1 - index) 0
initialize_from index ((key, values) ∷ rest) =
    let start = code_of key in
    replicate (start - index) 0 ++ values ++ initialize_from (start + length values) rest

-- mKeyMap
abbrev pub key_map : List ℕ
key_map = initialize_from 0 (
    (key_1, codes "1234567890")
    ∷ (key_minus, codes "-=")
    ∷ (key_q, codes "qwertyuiop")
    ∷ (key_leftbrace, codes "[]")
    ∷ (key_a, codes "asdfghjkl")
    ∷ (key_semicolon, codes ";'`")
    ∷ (key_backslash, 92 ∷ [])
    ∷ (key_z, codes "zxcvbnm")
    ∷ (key_comma, codes ",./")
    ∷ (key_space, codes " ")
    ∷ [])

-- mKeyMapShift
abbrev pub key_map_shift : List ℕ
key_map_shift = initialize_from 0 (
    (key_1, codes "!@#$%^&*()")
    ∷ (key_minus, codes "_+")
    ∷ (key_q, codes "QWERTYUIOP")
    ∷ (key_leftbrace, codes "{}")
    ∷ (key_a, codes "ASDFGHJKL")
    ∷ (key_semicolon, 58 ∷ 34 ∷ 126 ∷ [])
    ∷ (key_backslash, 124 ∷ [])
    ∷ (key_z, codes "ZXCVBNM")
    ∷ (key_comma, codes "<>?")
    ∷ (key_space, codes " ")
    ∷ [])
