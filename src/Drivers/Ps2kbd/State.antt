-- ===== src/Drivers/Ps2kbd/State.antt =====
-- The state of modules/ps2kbd/ps2kbd.c and its two layout tables.
use shit_os.Prelude.{ℕ, ◌∷◌, [], List, Bool}
use shit_os.Drivers.Ring.{Ring}

-- BUFFER_SIZE and EVENT_CAPACITY
abbrev pub buffer_size : ℕ
buffer_size = 256

abbrev pub event_capacity : ℕ
event_capacity = 128

-- `struct key_event`
pub record KeyEvent : Type 0 where
  pub keycode : ℕ
  pub pressed : ℕ
  pub modifiers : ℕ
  pub codepoint : ℕ

-- `struct Ps2Keyboard`: `buffer`, `head`, `tail` and `bytes_dropped` are the first ring, the fields
-- named for events the second. `kernel` is the parameter of the functions.
pub record Keyboard : Type 0 where
  pub readers : ℕ
  pub buffer : Ring ℕ
  pub event_readers : ℕ
  pub events : Ring KeyEvent
  pub shift_held : Bool
  pub control_held : Bool
  pub alt_held : Bool
  pub caps_lock : Bool
  pub expecting_extended : Bool
  pub keys_seen : ℕ

-- SCANCODE_TO_ASCII and SCANCODE_TO_ASCII_SHIFTED: what the C tables leave to zero at their ends is
-- the default of the lookups.
unfoldable pub scancode_to_ascii : List ℕ
scancode_to_ascii =
    0 ∷ 27 ∷ 49 ∷ 50 ∷ 51 ∷ 52 ∷ 53 ∷ 54 ∷ 55 ∷ 56 ∷ 57 ∷ 48 ∷ 45 ∷ 61 ∷ 8 ∷ 9 ∷ 113 ∷ 119 ∷ 101
    ∷ 114 ∷ 116 ∷ 121 ∷ 117 ∷ 105 ∷ 111 ∷ 112 ∷ 91 ∷ 93 ∷ 10 ∷ 0 ∷ 97 ∷ 115 ∷ 100 ∷ 102 ∷ 103 ∷ 104
    ∷ 106 ∷ 107 ∷ 108 ∷ 59 ∷ 39 ∷ 96 ∷ 0 ∷ 92 ∷ 122 ∷ 120 ∷ 99 ∷ 118 ∷ 98 ∷ 110 ∷ 109 ∷ 44 ∷ 46 ∷ 47
    ∷ 0 ∷ 42 ∷ 0 ∷ 32 ∷ 0 ∷ 0 ∷ 0 ∷ 0 ∷ 0 ∷ 0 ∷ 0 ∷ 0 ∷ 0 ∷ 0 ∷ 0 ∷ 0 ∷ 0 ∷ 55 ∷ 56 ∷ 57 ∷ 45 ∷ 52
    ∷ 53 ∷ 54 ∷ 43 ∷ 49 ∷ 50 ∷ 51 ∷ 48 ∷ 46 ∷ 0 ∷ 0 ∷ 0 ∷ 0 ∷ 0 ∷ []

unfoldable pub scancode_to_ascii_shifted : List ℕ
scancode_to_ascii_shifted =
    0 ∷ 27 ∷ 33 ∷ 64 ∷ 35 ∷ 36 ∷ 37 ∷ 94 ∷ 38 ∷ 42 ∷ 40 ∷ 41 ∷ 95 ∷ 43 ∷ 8 ∷ 9 ∷ 81 ∷ 87 ∷ 69 ∷ 82
    ∷ 84 ∷ 89 ∷ 85 ∷ 73 ∷ 79 ∷ 80 ∷ 123 ∷ 125 ∷ 10 ∷ 0 ∷ 65 ∷ 83 ∷ 68 ∷ 70 ∷ 71 ∷ 72 ∷ 74 ∷ 75 ∷ 76
    ∷ 58 ∷ 34 ∷ 126 ∷ 0 ∷ 124 ∷ 90 ∷ 88 ∷ 67 ∷ 86 ∷ 66 ∷ 78 ∷ 77 ∷ 60 ∷ 62 ∷ 63 ∷ 0 ∷ 42 ∷ 0 ∷ 32
    ∷ 0 ∷ 0 ∷ 0 ∷ 0 ∷ 0 ∷ 0 ∷ 0 ∷ 0 ∷ 0 ∷ 0 ∷ 0 ∷ 0 ∷ 0 ∷ 55 ∷ 56 ∷ 57 ∷ 45 ∷ 52 ∷ 53 ∷ 54 ∷ 43 ∷ 49
    ∷ 50 ∷ 51 ∷ 48 ∷ 46 ∷ 0 ∷ 0 ∷ 0 ∷ 0 ∷ 0 ∷ []
