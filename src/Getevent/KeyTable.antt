-- ===== src/Getevent/KeyTable.antt =====
-- The key table of src/getevent_parser.cpp: Linux key codes and HID usages.
use aoahid_player.Base.{ℕ, List, [], ◌∷◌}
use aoahid_player.Text.{Bytes, codes}

pub record KeyMapping : Type 0 where
  pub name : Bytes
  pub linux_code : ℕ
  pub hid_usage : ℕ

abbrev mapping : Bytes → ℕ → ℕ → KeyMapping
mapping name code usage = record { name = name; linux_code = code; hid_usage = usage }

abbrev pub key_table : List KeyMapping
key_table =
    mapping (codes "KEY_ESC") 1 41
    ∷ mapping (codes "KEY_1") 2 30
    ∷ mapping (codes "KEY_2") 3 31
    ∷ mapping (codes "KEY_3") 4 32
    ∷ mapping (codes "KEY_4") 5 33
    ∷ mapping (codes "KEY_5") 6 34
    ∷ mapping (codes "KEY_6") 7 35
    ∷ mapping (codes "KEY_7") 8 36
    ∷ mapping (codes "KEY_8") 9 37
    ∷ mapping (codes "KEY_9") 10 38
    ∷ mapping (codes "KEY_0") 11 39
    ∷ mapping (codes "KEY_MINUS") 12 45
    ∷ mapping (codes "KEY_EQUAL") 13 46
    ∷ mapping (codes "KEY_BACKSPACE") 14 42
    ∷ mapping (codes "KEY_TAB") 15 43
    ∷ mapping (codes "KEY_Q") 16 20
    ∷ mapping (codes "KEY_W") 17 26
    ∷ mapping (codes "KEY_E") 18 8
    ∷ mapping (codes "KEY_R") 19 21
    ∷ mapping (codes "KEY_T") 20 23
    ∷ mapping (codes "KEY_Y") 21 28
    ∷ mapping (codes "KEY_U") 22 24
    ∷ mapping (codes "KEY_I") 23 12
    ∷ mapping (codes "KEY_O") 24 18
    ∷ mapping (codes "KEY_P") 25 19
    ∷ mapping (codes "KEY_LEFTBRACE") 26 47
    ∷ mapping (codes "KEY_RIGHTBRACE") 27 48
    ∷ mapping (codes "KEY_ENTER") 28 40
    ∷ mapping (codes "KEY_LEFTCTRL") 29 224
    ∷ mapping (codes "KEY_A") 30 4
    ∷ mapping (codes "KEY_S") 31 22
    ∷ mapping (codes "KEY_D") 32 7
    ∷ mapping (codes "KEY_F") 33 9
    ∷ mapping (codes "KEY_G") 34 10
    ∷ mapping (codes "KEY_H") 35 11
    ∷ mapping (codes "KEY_J") 36 13
    ∷ mapping (codes "KEY_K") 37 14
    ∷ mapping (codes "KEY_L") 38 15
    ∷ mapping (codes "KEY_SEMICOLON") 39 51
    ∷ mapping (codes "KEY_APOSTROPHE") 40 52
    ∷ mapping (codes "KEY_GRAVE") 41 53
    ∷ mapping (codes "KEY_LEFTSHIFT") 42 225
    ∷ mapping (codes "KEY_BACKSLASH") 43 49
    ∷ mapping (codes "KEY_Z") 44 29
    ∷ mapping (codes "KEY_X") 45 27
    ∷ mapping (codes "KEY_C") 46 6
    ∷ mapping (codes "KEY_V") 47 25
    ∷ mapping (codes "KEY_B") 48 5
    ∷ mapping (codes "KEY_N") 49 17
    ∷ mapping (codes "KEY_M") 50 16
    ∷ mapping (codes "KEY_COMMA") 51 54
    ∷ mapping (codes "KEY_DOT") 52 55
    ∷ mapping (codes "KEY_SLASH") 53 56
    ∷ mapping (codes "KEY_RIGHTSHIFT") 54 229
    ∷ mapping (codes "KEY_KPASTERISK") 55 85
    ∷ mapping (codes "KEY_LEFTALT") 56 226
    ∷ mapping (codes "KEY_SPACE") 57 44
    ∷ mapping (codes "KEY_CAPSLOCK") 58 57
    ∷ mapping (codes "KEY_F1") 59 58
    ∷ mapping (codes "KEY_F2") 60 59
    ∷ mapping (codes "KEY_F3") 61 60
    ∷ mapping (codes "KEY_F4") 62 61
    ∷ mapping (codes "KEY_F5") 63 62
    ∷ mapping (codes "KEY_F6") 64 63
    ∷ mapping (codes "KEY_F7") 65 64
    ∷ mapping (codes "KEY_F8") 66 65
    ∷ mapping (codes "KEY_F9") 67 66
    ∷ mapping (codes "KEY_F10") 68 67
    ∷ mapping (codes "KEY_NUMLOCK") 69 83
    ∷ mapping (codes "KEY_SCROLLLOCK") 70 71
    ∷ mapping (codes "KEY_KP7") 71 95
    ∷ mapping (codes "KEY_KP8") 72 96
    ∷ mapping (codes "KEY_KP9") 73 97
    ∷ mapping (codes "KEY_KPMINUS") 74 86
    ∷ mapping (codes "KEY_KP4") 75 92
    ∷ mapping (codes "KEY_KP5") 76 93
    ∷ mapping (codes "KEY_KP6") 77 94
    ∷ mapping (codes "KEY_KPPLUS") 78 87
    ∷ mapping (codes "KEY_KP1") 79 89
    ∷ mapping (codes "KEY_KP2") 80 90
    ∷ mapping (codes "KEY_KP3") 81 91
    ∷ mapping (codes "KEY_KP0") 82 98
    ∷ mapping (codes "KEY_KPDOT") 83 99
    ∷ mapping (codes "KEY_F11") 87 68
    ∷ mapping (codes "KEY_F12") 88 69
    ∷ mapping (codes "KEY_KPENTER") 96 88
    ∷ mapping (codes "KEY_RIGHTCTRL") 97 228
    ∷ mapping (codes "KEY_KPSLASH") 98 84
    ∷ mapping (codes "KEY_SYSRQ") 99 70
    ∷ mapping (codes "KEY_RIGHTALT") 100 230
    ∷ mapping (codes "KEY_HOME") 102 74
    ∷ mapping (codes "KEY_UP") 103 82
    ∷ mapping (codes "KEY_PAGEUP") 104 75
    ∷ mapping (codes "KEY_LEFT") 105 80
    ∷ mapping (codes "KEY_RIGHT") 106 79
    ∷ mapping (codes "KEY_END") 107 77
    ∷ mapping (codes "KEY_DOWN") 108 81
    ∷ mapping (codes "KEY_PAGEDOWN") 109 78
    ∷ mapping (codes "KEY_INSERT") 110 73
    ∷ mapping (codes "KEY_DELETE") 111 76
    ∷ mapping (codes "KEY_PAUSE") 119 72
    ∷ mapping (codes "KEY_LEFTMETA") 125 227
    ∷ mapping (codes "KEY_RIGHTMETA") 126 231
    ∷ mapping (codes "KEY_COMPOSE") 127 101
    ∷ mapping (codes "KEY_F13") 183 104
    ∷ mapping (codes "KEY_F14") 184 105
    ∷ mapping (codes "KEY_F15") 185 106
    ∷ mapping (codes "KEY_F16") 186 107
    ∷ mapping (codes "KEY_F17") 187 108
    ∷ mapping (codes "KEY_F18") 188 109
    ∷ mapping (codes "KEY_F19") 189 110
    ∷ mapping (codes "KEY_F20") 190 111
    ∷ mapping (codes "KEY_F21") 191 112
    ∷ []
