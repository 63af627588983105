-- ===== src/Libui/Terminal/Parser.antt =====
-- user/libui/terminal.c: characters and escape sequences. A byte is below 256; `char` is signed
-- there, but all comparisons are with characters below 128. A parameter is a number of any size: the
-- source lets an `int` overflow after ten digits. A cursor that a sequence moves below 0 is set to 0 by the two
-- guards at the end of execute_csi; subtraction stops at 0 here, which is both.
use shit_os.Prelude.{
  ℕ, zero, suc, ◌+◌, ◌-◌, ◌*◌, ◌/◌, Bool, true, false, ◌&&◌, ◌||◌, List, [], ◌∷◌, ltb, leb, ◌==◌,
  bit, if◌then◌else◌, get_or, set, take,
}
use shit_os.Prelude.Int.{pos, negsuc}
use shit_os.Libui.Terminal.Grid.{
  Cell, Terminal, ParserState, ground_state, escape, csi, osc, max_parameters, screen_row,
  touch_rows, scroll_up, erase_in_display, erase_in_line,
}

unfoldable pub parameter : Terminal → ℕ → ℕ → ℕ
parameter t index fallback =
    if leb t.parameter_count index
    then fallback
    else if ltb 0 (get_or t.parameters index 0)
    then get_or t.parameters index 0
    else fallback

abbrev set_bit : ℕ → ℕ → ℕ → ℕ
set_bit k mask x = if bit k x then x else x + mask

abbrev clear_bit : ℕ → ℕ → ℕ → ℕ
clear_bit k mask x = if bit k x then x - mask else x

abbrev plain : Terminal → Terminal
plain t = record t { attributes = 0; foreground = negsuc 0; background = negsuc 0 }

abbrev between : ℕ → ℕ → ℕ → Bool
between low high code = leb low code && leb code high

-- one round of `apply_sgr`
unfoldable pub apply_code : Terminal → ℕ → Terminal
apply_code t code =
    if code == 0
    then plain t
    else if code == 1
    then record t { attributes = set_bit 0 1 t.attributes }
    else if code == 2
    then record t { attributes = set_bit 2 4 t.attributes }
    else if code == 7
    then record t { attributes = set_bit 1 2 t.attributes }
    else if code == 22
    then record t { attributes = clear_bit 2 4 (clear_bit 0 1 t.attributes) }
    else if code == 27
    then record t { attributes = clear_bit 1 2 t.attributes }
    else if between 30 37 code
    then record t { foreground = pos (code - 30) }
    else if code == 39
    then record t { foreground = negsuc 0 }
    else if between 40 47 code
    then record t { background = pos (code - 40) }
    else if code == 49
    then record t { background = negsuc 0 }
    else if between 90 97 code
    then record t { foreground = pos (code - 90 + 8) }
    else if between 100 107 code
    then record t { background = pos (code - 100 + 8) }
    else t

unfoldable pub apply_codes : List ℕ → Terminal → Terminal
apply_codes [] t = t
apply_codes (code ∷ codes) t = apply_codes codes (apply_code t code)

unfoldable pub apply_sgr : Terminal → Terminal
unfolding apply_codes apply_code
apply_sgr t =
    if t.parameter_count == 0 then plain t else apply_codes (take t.parameter_count t.parameters) t

-- the switch of `execute_csi`. What would take the cursor below 0 stops there: `clamp` follows.
unfoldable pub csi_action : ℕ → Terminal → Terminal
unfolding parameter
csi_action final t =
    let n = parameter t 0 1 in
    if final == b'A'
    then record t { cursor_y = t.cursor_y - n }
    else if final == b'B'
    then record t { cursor_y = t.cursor_y + n }
    else if final == b'C'
    then record t { cursor_x = t.cursor_x + n }
    else if final == b'D'
    then record t { cursor_x = t.cursor_x - n }
    else if final == b'G'
    then record t { cursor_x = n - 1 }
    else if final == b'd'
    then record t { cursor_y = n - 1 }
    else if (final == b'H') || (final == b'f')
    then record t { cursor_y = n - 1; cursor_x = parameter t 1 1 - 1 }
    else if final == b'J'
    then erase_in_display (parameter t 0 0) t
    else if final == b'K'
    then erase_in_line (parameter t 0 0) t
    else if final == b'm'
    then apply_sgr t
    else if (final == b'h') || (final == b'l')
    then (if t.private_marker && (parameter t 0 0 == 25)
        then record t { cursor_visible = final == b'h' }
        else t)
    else if final == b's'
    then record t { saved_x = t.cursor_x; saved_y = t.cursor_y }
    else if final == b'u'
    then record t { cursor_x = t.saved_x; cursor_y = t.saved_y }
    else t

unfoldable pub clamp : Terminal → Terminal
clamp t = record t {
  cursor_x = if leb t.columns t.cursor_x then t.columns - 1 else t.cursor_x;
  cursor_y = if leb t.rows t.cursor_y then t.rows - 1 else t.cursor_y;
}

unfoldable pub execute_csi : ℕ → Terminal → Terminal
unfolding clamp
execute_csi final t = clamp (csi_action final t)

-- `while (cursor_y >= rows) { scroll_up(); --cursor_y; }`, which takes that many rounds
unfoldable pub scroll_rounds : ℕ → Terminal → Terminal
scroll_rounds zero t = t
scroll_rounds (suc n) t =
    let t1 = scroll_up t in scroll_rounds n (record t1 { cursor_y = t1.cursor_y - 1 })

unfoldable pub scroll_into_view : Terminal → Terminal
unfolding scroll_rounds
scroll_into_view t = scroll_rounds (t.cursor_y + 1 - t.rows) t

abbrev pub cell_of : ℕ → Terminal → Cell
cell_of c t = record {
  ch = c;
  attributes = t.attributes;
  foreground = t.foreground;
  background = t.background;
}

-- the store of one cell, at the cursor
unfoldable pub store_cell : ℕ → Terminal → Terminal
store_cell c t =
    let place = screen_row t t.cursor_y in
    record t {
      storage = set t.storage place (set (get_or t.storage place []) t.cursor_x (cell_of c t));
    }

abbrev wrap_line : Terminal → Terminal
wrap_line t =
    if leb t.columns t.cursor_x then record t { cursor_x = 0; cursor_y = t.cursor_y + 1 } else t

unfoldable pub put_character : ℕ → Terminal → Terminal
put_character c t =
    let t1 = scroll_into_view (wrap_line t) in
    let t2 = touch_rows t1.cursor_y (t1.cursor_y + 1) (store_cell c t1) in
    record t2 { cursor_x = t2.cursor_x + 1 }

-- the cases of `feed_byte` by the state of the parser
unfoldable pub feed_escape : ℕ → Terminal → Terminal
feed_escape c t =
    if c == b'['
    then record t {
      state = csi;
      parameter_count = 0;
      private_marker = false;
      parameters = set t.parameters 0 0;
    }
    else if c == b']'
    then record t { state = osc }
    else record t { state = ground_state }

-- A digit extends the last parameter, and a semicolon starts one; a first one is there already.
abbrev pub first_parameter : ℕ → ℕ
first_parameter n = if n == 0 then 1 else n

unfoldable pub feed_digit : ℕ → Terminal → Terminal
feed_digit c t =
    let count = first_parameter t.parameter_count in
    let value = get_or t.parameters (count - 1) 0 in
    if leb count max_parameters
    then record t {
      parameter_count = count;
      parameters = set t.parameters (count - 1) (value * 10 + (c - b'0'));
    }
    else record t { parameter_count = count }

unfoldable pub feed_semicolon : Terminal → Terminal
feed_semicolon t =
    let count = first_parameter t.parameter_count in
    if ltb count max_parameters
    then record t { parameter_count = count + 1; parameters = set t.parameters count 0 }
    else record t { parameter_count = count }

unfoldable pub feed_csi : ℕ → Terminal → Terminal
unfolding feed_digit feed_semicolon
feed_csi c t =
    if c == b'?'
    then record t { private_marker = true }
    else if leb b'0' c && leb c b'9'
    then feed_digit c t
    else if c == b';'
    then feed_semicolon t
    else let t1 = execute_csi c t in record t1 { state = ground_state }

unfoldable pub feed_osc : ℕ → Terminal → Terminal
feed_osc c t =
    if c == 7
    then record t { state = ground_state }
    else if c == 0x1b
    then record t { state = escape }
    else t

-- the second switch
unfoldable pub feed_ground : ℕ → Terminal → Terminal
feed_ground c t =
    let stop = (t.cursor_x + 8) / 8 * 8 in
    if c == 0x1b
    then record t { state = escape }
    else if c == 13
    then record t { cursor_x = 0 }
    else if c == 10
    then scroll_into_view (record t { cursor_y = t.cursor_y + 1 })
    else if c == 8
    then record t { cursor_x = t.cursor_x - 1 }
    else if c == 9
    then record t { cursor_x = if leb t.columns stop then t.columns - 1 else stop }
    else if ltb c 32
    then t
    else put_character c t

unfoldable pub feed_in : ParserState → ℕ → Terminal → Terminal
feed_in escape c t = feed_escape c t
feed_in csi c t = feed_csi c t
feed_in osc c t = feed_osc c t
feed_in ground_state c t = feed_ground c t

unfoldable pub feed_byte : ℕ → Terminal → Terminal
unfolding feed_in feed_escape feed_csi feed_osc feed_ground
feed_byte c t = feed_in t.state c t

unfoldable pub feed_bytes : List ℕ → Terminal → Terminal
feed_bytes [] t = t
feed_bytes (c ∷ cs) t = feed_bytes cs (feed_byte c t)

-- `ui_terminal_feed`, without the call that invalidates the dirty rows
unfoldable pub feed : List ℕ → Terminal → Terminal
unfolding feed_bytes
feed bytes t =
    let t1 = feed_bytes bytes t in
    touch_rows t1.cursor_y (t1.cursor_y + 1) (touch_rows t.cursor_y (t.cursor_y + 1) t1)
