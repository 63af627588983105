-- ===== src/Libui/Terminal/Reshape.antt =====
-- user/libui/terminal.c: `reshape`, which makes the grid for the size of the widget. The font and the
-- memory are parameters: the size of a cell if there is a font, and whether `calloc` gave the cells.
use shit_os.Prelude.{
  ℕ, zero, suc, ◌+◌, ◌/◌, ◌≤◌, ◌≡◌, ◌⊎◌, arith, Bool, true, false, ◌&&◌, ◌||◌, Option, none, some,
  [], length, length-replicate, replicate, ltb, ◌==◌, if◌then◌else◌, inl, inr,
}
use shit_os.Prelude.Int.{pos}
use shit_os.Libui.Terminal.Grid.{
  Cell, Terminal, max_parameters, touch_all, clear_row, clear_storage, reset_grid,
}
use shit_os.Libui.Terminal.Bounds.{IsValid}
use shit_os.Libui.Terminal.Bounds.{Keeps, Keeps-trans, erase_row-Keeps, touch_rows-Keeps}

-- SCROLLBACK_ROWS, MAX_COLUMNS and MAX_ROWS
abbrev scrollback_rows : ℕ
scrollback_rows = 2000

abbrev max_columns : ℕ
max_columns = 400

abbrev max_rows : ℕ
max_rows = 200

-- so many of them, one at least
abbrev clamped : ℕ → ℕ → ℕ
clamped most n = if ltb n 1 then 1 else if ltb most n then most else n

-- a cell as `calloc` leaves it
abbrev no_cell : Cell
no_cell = record { ch = 0; attributes = 0; foreground = pos 0; background = pos 0 }

-- the new grid, once the size is known to differ
unfoldable pub rebuild : ℕ → ℕ → Bool → Terminal → Terminal
rebuild columns rows given t =
    let storage_rows = if ltb rows scrollback_rows then scrollback_rows else rows in
    if given
    then reset_grid (record t {
      columns = columns;
      rows = rows;
      storage_rows = storage_rows;
      storage = replicate storage_rows (replicate columns no_cell);
    })
    else record t { columns = 0; rows = 0; storage_rows = storage_rows; storage = [] }

unfoldable pub resize : ℕ → ℕ → Bool → Terminal → Terminal
unfolding rebuild
resize columns rows given t =
    if (columns == t.columns) && (rows == t.rows) && ltb 0 (length t.storage)
    then t
    else rebuild columns rows given t

unfoldable pub reshape : Option (ℕ × ℕ) → ℕ → ℕ → Bool → Terminal → Terminal
unfolding resize
reshape none width height given t = t
reshape (some (cell_width, cell_height)) width height given t =
    if (cell_width == 0) || (cell_height == 0)
    then t
    else resize (clamped max_columns (width / cell_width)) (clamped max_rows (height / cell_height))
        given t

clear_storage-Keeps : (count i : ℕ) (t : Terminal) → Keeps t (clear_storage count i t)
unfolding clear_storage clear_row
clear_storage-Keeps zero i t = ground arith
clear_storage-Keeps (suc count) i t =
    Keeps-trans (erase_row-Keeps i 0 t.columns t)
      (clear_storage-Keeps count (i + 1) (clear_row i t))

-- what `reset_grid` starts from
record IsSized (t : Terminal) : Type 0 where
  columns_pos : 1 ≤ t.columns
  rows_pos : 1 ≤ t.rows
  storage_is : length t.storage ≡ t.storage_rows
  rows_in : t.rows ≤ t.storage_rows
  parameters_are : length t.parameters ≡ max_parameters
  count_in : t.parameter_count ≤ max_parameters

reset_grid-IsValid : {t : Terminal} → IsSized t → IsValid (reset_grid t)
unfolding reset_grid touch_all
reset_grid-IsValid {t} s =
    settled s (Keeps-trans (clear_storage-Keeps t.storage_rows 0 _) (touch_rows-Keeps 0 _ _))
  where
    settled :
        {u : Terminal}
        → IsSized t
        → Keeps (record t { used = t.rows; top = 0; view = 0; cursor_x = 0; cursor_y = 0 }) u
        → IsValid u
    settled s k = ground arith

rebuild-IsValid :
    (columns rows : ℕ) (t : Terminal)
    → 1 ≤ columns
    → 1 ≤ rows
    → length t.parameters ≡ max_parameters
    → t.parameter_count ≤ max_parameters
    → IsValid (rebuild columns rows true t)
unfolding rebuild
rebuild-IsValid columns rows t cp rp ps pc = reset_grid-IsValid record {
  columns_pos = cp;
  rows_pos = rp;
  storage_is = length-replicate _ _;
  rows_in = ground arith;
  parameters_are = ps;
  count_in = pc;
}

resize-IsValid :
    (columns rows : ℕ) (t : Terminal)
    → 1 ≤ columns
    → 1 ≤ rows
    → length t.parameters ≡ max_parameters
    → t.parameter_count ≤ max_parameters
    → IsValid t ⊎ (t.storage ≡ [])
    → IsValid (resize columns rows true t)
unfolding resize
resize-IsValid columns rows t cp rp ps pc (inl v) =
    ground (arith, v, rebuild-IsValid columns rows t cp rp ps pc)
resize-IsValid columns rows t cp rp ps pc (inr e) =
    rw (e, no_grid) (rebuild-IsValid columns rows t cp rp ps pc)
  where
    no_grid : ((columns == t.columns) && (rows == t.rows) && false) ≡ false
    no_grid = ground arith

clamped_pos : (most n : ℕ) → 1 ≤ most → 1 ≤ clamped most n
clamped_pos most n h = ground arith

-- When memory is given, `reshape` gives a well-formed terminal from one that was well-formed, and
-- from one that had no grid yet when there is a font with a size.
pub reshape-IsValid :
    (cell_width cell_height width height : ℕ) (t : Terminal)
    → 1 ≤ cell_width
    → 1 ≤ cell_height
    → length t.parameters ≡ max_parameters
    → t.parameter_count ≤ max_parameters
    → IsValid t ⊎ (t.storage ≡ [])
    → IsValid (reshape (some (cell_width, cell_height)) width height true t)
unfolding reshape
reshape-IsValid cell_width cell_height width height t cw ch ps pc v = rw sized (
    resize-IsValid _ _ t (clamped_pos max_columns (width / cell_width) (omega arith))
      (clamped_pos max_rows (height / cell_height) (omega arith)) ps pc v)
  where
    sized : ((cell_width == 0) || (cell_height == 0)) ≡ false
    sized = ground arith
