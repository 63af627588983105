-- ===== src/Libui/Terminal/Bounds.antt =====
-- user/libui/terminal.c: the ranges of the indices of the terminal.
use shit_os.Prelude.{
  ℕ, zero, suc, ◌+◌, ◌-◌, ◌%◌, ◌≤◌, ◌<◌, ◌≡◌, refl, List, [], ◌∷◌, arith, length, length-set,
  get_or, set, ◌*◌, min, leb, ◌==◌, Bool-cases, inl, inr, take,
}
use shit_os.Libui.Terminal.Grid.{
  Terminal, ParserState, ground_state, escape, csi, osc, max_parameters, screen_row, touch_rows,
  touch_all, advance_ring, erase_cells, erase_row, clear_row, scroll_up, clear_rows,
  erase_in_display, erase_in_line,
}
use shit_os.Libui.Terminal.Parser.{
  parameter, cell_of, apply_code, apply_codes, apply_sgr, csi_action, clamp, execute_csi,
  scroll_rounds, scroll_into_view, store_cell, put_character, first_parameter, feed_digit,
  feed_semicolon, feed_in, feed_escape, feed_csi, feed_osc, feed_ground, feed_byte,
}

-- the ring of rows and the parser's parameters
pub record IsGrid (t : Terminal) : Type 0 where
  pub columns_pos : 1 ≤ t.columns
  pub rows_pos : 1 ≤ t.rows
  pub storage_is : length t.storage ≡ t.storage_rows
  pub used_from : t.rows ≤ t.used
  pub used_to : t.used ≤ t.storage_rows
  pub top_in : t.top < t.storage_rows
  pub parameters_are : length t.parameters ≡ max_parameters
  pub count_in : t.parameter_count ≤ max_parameters

-- The cursor may stand one past the last column: the next character wraps.
pub record IsValid (t : Terminal) : Type 0 where
  pub grid : IsGrid t
  pub x_in : t.cursor_x ≤ t.columns
  pub y_in : t.cursor_y < t.rows

-- what an operation on the cells leaves alone
pub record Keeps (t t' : Terminal) : Type 0 where
  pub columns : t'.columns ≡ t.columns
  pub rows : t'.rows ≡ t.rows
  pub storage : length t'.storage ≡ length t.storage
  pub storage_rows : t'.storage_rows ≡ t.storage_rows
  pub used : t'.used ≡ t.used
  pub top : t'.top ≡ t.top
  pub cursor_x : t'.cursor_x ≡ t.cursor_x
  pub cursor_y : t'.cursor_y ≡ t.cursor_y
  pub parameters : t'.parameters ≡ t.parameters
  pub parameter_count : t'.parameter_count ≡ t.parameter_count

pub Keeps-trans : {t u v : Terminal} → Keeps t u → Keeps u v → Keeps t v
Keeps-trans h k = ground arith

Keeps-IsGrid : {t u : Terminal} → Keeps t u → IsGrid t → IsGrid u
Keeps-IsGrid k g = ground arith

pub touch_rows-Keeps : (from to : ℕ) (t : Terminal) → Keeps t (touch_rows from to t)
unfolding touch_rows
touch_rows-Keeps from to t = ground arith

pub erase_row-Keeps : (place from to : ℕ) (t : Terminal) → Keeps t (erase_row place from to t)
unfolding erase_row
erase_row-Keeps place from to t = ground (
  arith,
  length-set t.storage place
      (erase_cells t.background 0 from (min to t.columns) (get_or t.storage place [])),
)

clear_rows-Keeps : (count y : ℕ) (t : Terminal) → Keeps t (clear_rows count y t)
unfolding clear_rows clear_row
clear_rows-Keeps zero y t = ground arith
clear_rows-Keeps (suc count) y t =
    Keeps-trans (erase_row-Keeps (screen_row t y) 0 t.columns t)
      (clear_rows-Keeps count (y + 1) (clear_row (screen_row t y) t))

erase_in_display-Keeps : (mode : ℕ) (t : Terminal) → Keeps t (erase_in_display mode t)
unfolding erase_in_display
erase_in_display-Keeps mode t = elim (Bool-cases (mode == 0)) [
  | inl e ↦ rw e (Keeps-trans (erase_row-Keeps _ _ _ t) (clear_rows-Keeps _ _ _))
  | inr e ↦ elim (Bool-cases (mode == 1)) [
    | inl e1 ↦ rw (e, e1) (Keeps-trans (clear_rows-Keeps _ _ t) (erase_row-Keeps _ _ _ _))
    | inr e1 ↦ rw (e, e1) (clear_rows-Keeps _ _ t)
  ]
]

erase_in_line-Keeps : (mode : ℕ) (t : Terminal) → Keeps t (erase_in_line mode t)
unfolding erase_in_line
erase_in_line-Keeps mode t = Keeps-trans (erase_row-Keeps _ _ _ t) (touch_rows-Keeps _ _ _)

apply_code-Keeps : (t : Terminal) (code : ℕ) → Keeps t (apply_code t code)
unfolding apply_code
apply_code-Keeps t code = ground arith

apply_codes-Keeps : (codes : List ℕ) (t : Terminal) → Keeps t (apply_codes codes t)
unfolding apply_codes
apply_codes-Keeps [] t = ground arith
apply_codes-Keeps (code ∷ codes) t =
    Keeps-trans (apply_code-Keeps t code) (apply_codes-Keeps codes (apply_code t code))

apply_sgr-Keeps : (t : Terminal) → Keeps t (apply_sgr t)
unfolding apply_sgr
apply_sgr-Keeps t = elim (Bool-cases (t.parameter_count == 0)) [
  | inl e ↦ rw e (ground arith)
  | inr e ↦ rw e (apply_codes-Keeps (take t.parameter_count t.parameters) t)
]

-- what scrolling leaves alone
record Scrolls (t t' : Terminal) : Type 0 where
  grid : IsGrid t'
  columns : t'.columns ≡ t.columns
  rows : t'.rows ≡ t.rows
  cursor_x : t'.cursor_x ≡ t.cursor_x
  cursor_y : t'.cursor_y ≡ t.cursor_y

advance_ring-Scrolls : (t : Terminal) → IsGrid t → Scrolls t (advance_ring t)
unfolding advance_ring
advance_ring-Scrolls t g = ground (arith, next_top)
  where
    next_top : (t.top + 1) % t.storage_rows < t.storage_rows
    next_top = omega arith

Scrolls-Keeps : {t u v : Terminal} → Scrolls t u → Keeps u v → Scrolls t v
Scrolls-Keeps s k = ground arith

Scrolls-trans : {t u v : Terminal} → Scrolls t u → Scrolls u v → Scrolls t v
Scrolls-trans s s' = ground arith

Keeps-view : (t : Terminal) (n : ℕ) → Keeps t (record t { view = n })
Keeps-view t n = ground arith

scroll_up-Scrolls : (t : Terminal) → IsGrid t → Scrolls t (scroll_up t)
unfolding scroll_up clear_row touch_all
scroll_up-Scrolls t g =
    Scrolls-Keeps (advance_ring-Scrolls t g) (
      Keeps-trans (erase_row-Keeps _ _ _ _) (Keeps-trans (touch_rows-Keeps _ _ _) (Keeps-view _ 0)))

-- The loop stops as soon as the cursor is on the screen.
record InView (t t' : Terminal) : Type 0 where
  grid : IsGrid t'
  columns : t'.columns ≡ t.columns
  cursor_x : t'.cursor_x ≡ t.cursor_x
  y_in : t'.cursor_y < t'.rows

InView-step :
    {t u v : Terminal}
    → Scrolls t u
    → InView (record u { cursor_y = u.cursor_y - 1 }) v
    → InView t v
InView-step s w = ground arith

IsGrid-move : {t : Terminal} (x y : ℕ) → IsGrid t → IsGrid (record t { cursor_x = x; cursor_y = y })
IsGrid-move x y g = ground arith

scroll_rounds-InView :
    (n : ℕ) (t : Terminal) → IsGrid t → n ≡ t.cursor_y + 1 - t.rows → InView t (scroll_rounds n t)
unfolding scroll_rounds
scroll_rounds-InView zero t g e = ground arith
scroll_rounds-InView (suc n) t g e = InView-step s (
    scroll_rounds-InView n (record (scroll_up t) { cursor_y = (scroll_up t).cursor_y - 1 })
      (IsGrid-move (scroll_up t).cursor_x ((scroll_up t).cursor_y - 1) s.grid) rest)
  where
    s : Scrolls t (scroll_up t)
    s = scroll_up-Scrolls t g

    rest : n ≡ (scroll_up t).cursor_y - 1 + 1 - (scroll_up t).rows
    rest = ground (arith, s.rows, s.cursor_y, g.rows_pos)

scroll_into_view-InView : (t : Terminal) → IsGrid t → InView t (scroll_into_view t)
unfolding scroll_into_view
scroll_into_view-InView t g = scroll_rounds-InView (t.cursor_y + 1 - t.rows) t g refl

IsGrid-csi_action : (final : ℕ) (t : Terminal) → IsGrid t → IsGrid (csi_action final t)
unfolding csi_action
IsGrid-csi_action final t g = ground (
  arith,
  Keeps-IsGrid (erase_in_display-Keeps (parameter t 0 0) t) g,
  Keeps-IsGrid (erase_in_line-Keeps (parameter t 0 0) t) g,
  Keeps-IsGrid (apply_sgr-Keeps t) g,
)

clamp-IsValid : {t : Terminal} → IsGrid t → IsValid (clamp t)
unfolding clamp
clamp-IsValid g = ground arith

execute_csi-IsValid : (final : ℕ) (t : Terminal) → IsGrid t → IsValid (execute_csi final t)
unfolding execute_csi
execute_csi-IsValid final t g = clamp-IsValid (IsGrid-csi_action final t g)

store_cell-Keeps : (c : ℕ) (t : Terminal) → Keeps t (store_cell c t)
unfolding store_cell
store_cell-Keeps c t = ground (
  arith,
  length-set t.storage (screen_row t t.cursor_y)
      (set (get_or t.storage (screen_row t t.cursor_y) []) t.cursor_x (cell_of c t)),
)

-- a character in a cell, and the cursor after it
typed :
    {t u : Terminal} (c : ℕ)
    → InView t u
    → t.cursor_x < t.columns
    → IsValid (
        let v = touch_rows u.cursor_y (u.cursor_y + 1) (store_cell c u) in
        record v { cursor_x = v.cursor_x + 1 })
typed {u = u} c w h = ground (
  arith,
  Keeps-trans (store_cell-Keeps c u)
      (touch_rows-Keeps u.cursor_y (u.cursor_y + 1) (store_cell c u)),
)

put_character-IsValid : (c : ℕ) (t : Terminal) → IsValid t → IsValid (put_character c t)
unfolding put_character
put_character-IsValid c t v = elim (Bool-cases (leb t.columns t.cursor_x)) [
  | inl e ↦ rw e (
      typed c (scroll_into_view-InView _ (IsGrid-move 0 (t.cursor_y + 1) v.grid))
        (omega (arith, v.grid.columns_pos)))
  | inr e ↦ rw e (typed c (scroll_into_view-InView _ v.grid) (ground arith))
]

feed_escape-IsValid : (c : ℕ) (t : Terminal) → IsValid t → IsValid (feed_escape c t)
unfolding feed_escape
feed_escape-IsValid c t v = ground (arith, length-set t.parameters 0 0)

feed_digit-IsValid : (c : ℕ) (t : Terminal) → IsValid t → IsValid (feed_digit c t)
unfolding feed_digit
feed_digit-IsValid c t v = ground (
  arith,
  length-set t.parameters (first_parameter t.parameter_count - 1)
      (get_or t.parameters (first_parameter t.parameter_count - 1) 0 * 10 + (c - b'0')),
)

feed_semicolon-IsValid : (t : Terminal) → IsValid t → IsValid (feed_semicolon t)
unfolding feed_semicolon
feed_semicolon-IsValid t v =
    ground (arith, length-set t.parameters (first_parameter t.parameter_count) 0)

feed_csi-IsValid : (c : ℕ) (t : Terminal) → IsValid t → IsValid (feed_csi c t)
unfolding feed_csi
feed_csi-IsValid c t v =
    ground
      (arith, feed_digit-IsValid c t v, feed_semicolon-IsValid t v, execute_csi-IsValid c t v.grid)

feed_osc-IsValid : (c : ℕ) (t : Terminal) → IsValid t → IsValid (feed_osc c t)
unfolding feed_osc
feed_osc-IsValid c t v = ground arith

InView-IsValid : {t u : Terminal} → InView t u → t.cursor_x ≤ t.columns → IsValid u
InView-IsValid w h = ground arith

feed_ground-IsValid : (c : ℕ) (t : Terminal) → IsValid t → IsValid (feed_ground c t)
unfolding feed_ground
feed_ground-IsValid c t v = ground (arith, line, put_character-IsValid c t v)
  where
    line : IsValid (scroll_into_view (record t { cursor_y = t.cursor_y + 1 }))
    line =
        InView-IsValid (scroll_into_view-InView _ (IsGrid-move t.cursor_x (t.cursor_y + 1) v.grid))
          v.x_in

-- Every byte fed to the terminal keeps it well-formed.
pub feed_byte-IsValid : (c : ℕ) (t : Terminal) → IsValid t → IsValid (feed_byte c t)
unfolding feed_byte feed_in
feed_byte-IsValid c t v = cases t.state
  where
    cases : (s : ParserState) → IsValid (feed_in s c t)
    cases escape = feed_escape-IsValid c t v
    cases csi = feed_csi-IsValid c t v
    cases osc = feed_osc-IsValid c t v
    cases ground_state = feed_ground-IsValid c t v
