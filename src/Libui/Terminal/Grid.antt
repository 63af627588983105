-- ===== src/Libui/Terminal/Grid.antt =====
-- user/libui/terminal.c: the ring of rows, scrolling, erasing, and which rows have to be painted.
-- The storage is a list of rows; every row of the source is `columns` cells of one array. An `int`
-- that the code keeps from going negative is a number; the cursor and the parameters are in `Parser`.
use shit_os.Prelude.{
  ℕ, zero, suc, ◌+◌, ◌-◌, ◌%◌, Bool, List, [], ◌∷◌, ltb, leb, ◌==◌, if◌then◌else◌, get_or, set, min,
}
use shit_os.Prelude.Int.{ℤ, negsuc}

pub record Cell : Type 0 where
  pub ch : ℕ
  pub attributes : ℕ
  pub foreground : ℤ
  pub background : ℤ

abbrev pub Row : Type 0
Row = List Cell

-- `enum ParserState`
pub data ParserState : Type 0 where
  ground_state escape csi osc : ParserState

-- MAX_PARAMETERS
abbrev pub max_parameters : ℕ
max_parameters = 16

-- `struct UiTerminal`, but for the widget base, the callbacks and the size of a cell.
pub record Terminal : Type 0 where
  pub columns : ℕ
  pub rows : ℕ
  pub storage : List Row
  pub storage_rows : ℕ
  pub top : ℕ
  pub used : ℕ
  pub view : ℕ
  pub cursor_x : ℕ
  pub cursor_y : ℕ
  pub saved_x : ℕ
  pub saved_y : ℕ
  pub cursor_visible : Bool
  pub attributes : ℕ
  pub foreground : ℤ
  pub background : ℤ
  pub dirty_top : ℕ
  pub dirty_bottom : ℕ
  pub state : ParserState
  pub parameters : List ℕ
  pub parameter_count : ℕ
  pub private_marker : Bool

-- the place in the storage of the row `index` rows down from the top of scrollback
unfoldable pub row_at : Terminal → ℕ → ℕ
row_at t index = (t.top + index) % t.storage_rows

-- and of the row `y` rows down the visible screen
unfoldable pub screen_row : Terminal → ℕ → ℕ
unfolding row_at
screen_row t y = row_at t (t.used - t.rows + y)

-- No caller passes a negative `from`.
unfoldable pub touch_rows : ℕ → ℕ → Terminal → Terminal
touch_rows from to t =
    let end = min to t.rows in
    if leb end from
    then t
    else if leb t.dirty_bottom t.dirty_top
    then record t { dirty_top = from; dirty_bottom = end }
    else record t {
      dirty_top = if ltb from t.dirty_top then from else t.dirty_top;
      dirty_bottom = if ltb t.dirty_bottom end then end else t.dirty_bottom;
    }

unfoldable pub touch_all : Terminal → Terminal
unfolding touch_rows
touch_all t = touch_rows 0 t.rows t

-- an erased cell takes the current background
abbrev pub blank : ℤ → Cell
blank background = record {
  ch = b' ';
  attributes = 0;
  foreground = negsuc 0;
  background = background;
}

-- the loop of `erase_cells` over one row: the cells from `from` up to `to`
unfoldable pub erase_cells : ℤ → ℕ → ℕ → ℕ → Row → Row
erase_cells background x from to [] = []
erase_cells background x from to (c ∷ cs) =
    (if leb from x then (if ltb x to then blank background else c) else c)
    ∷ erase_cells background (x + 1) from to cs

-- `erase_cells` on a row of the screen
unfoldable pub erase_row : ℕ → ℕ → ℕ → Terminal → Terminal
unfolding erase_cells
erase_row place from to t = record t {
  storage =
      set t.storage place
        (erase_cells t.background 0 from (min to t.columns) (get_or t.storage place []));
}

unfoldable pub clear_row : ℕ → Terminal → Terminal
unfolding erase_row
clear_row place t = erase_row place 0 t.columns t

-- the first half of `scroll_up`: one more row, or the oldest one again
unfoldable pub advance_ring : Terminal → Terminal
advance_ring t =
    if ltb t.used t.storage_rows
    then record t { used = t.used + 1 }
    else record t { top = (t.top + 1) % t.storage_rows }

unfoldable pub scroll_up : Terminal → Terminal
scroll_up t =
    let t1 = advance_ring t in
    let t2 = touch_all (clear_row (screen_row t1 (t1.rows - 1)) t1) in record t2 { view = 0 }

-- `for (y = from; y < from + count; ++y) clear_row(screen_row(y))`
unfoldable pub clear_rows : ℕ → ℕ → Terminal → Terminal
clear_rows zero y t = t
clear_rows (suc count) y t = clear_rows count (y + 1) (clear_row (screen_row t y) t)

-- the loop of `reset_grid` over the whole storage
unfoldable pub clear_storage : ℕ → ℕ → Terminal → Terminal
clear_storage zero i t = t
clear_storage (suc count) i t = clear_storage count (i + 1) (clear_row i t)

unfoldable pub reset_grid : Terminal → Terminal
reset_grid t =
    let t1 = record t { used = t.rows; top = 0; view = 0; cursor_x = 0; cursor_y = 0 } in
    touch_all (clear_storage t1.storage_rows 0 t1)

-- the cursor's row, from its start to the cursor
unfoldable pub erase_line_start : Terminal → Terminal
erase_line_start t = erase_row (screen_row t t.cursor_y) 0 (t.cursor_x + 1) t

-- `case 0`, `case 1` and the rest of `erase_in_display`
unfoldable pub erase_in_display : ℕ → Terminal → Terminal
unfolding erase_line_start
erase_in_display mode t =
    if mode == 0
    then clear_rows (t.rows - (t.cursor_y + 1)) (t.cursor_y + 1)
        (erase_row (screen_row t t.cursor_y) t.cursor_x t.columns t)
    else if mode == 1
    then erase_line_start (clear_rows t.cursor_y 0 t)
    else clear_rows t.rows 0 t

unfoldable pub erase_in_line : ℕ → Terminal → Terminal
erase_in_line mode t =
    let from = if mode == 0 then t.cursor_x else 0 in
    let to = if mode == 0 then t.columns else if mode == 1 then t.cursor_x + 1 else t.columns in
    touch_rows t.cursor_y (t.cursor_y + 1) (erase_row (screen_row t t.cursor_y) from to t)
