-- ===== src/Libui/Tests.antt =====
-- Runs of the terminal on a screen of two rows of three columns.
use shit_os.Prelude.{◌≡◌, true, false, replicate}
use shit_os.Prelude.Int.{negsuc}
use shit_os.Libui.Terminal.Grid.{Terminal, Cell, ground_state, erase_in_display}
use shit_os.Libui.Terminal.Erase.{dirty-erase_in_display}

abbrev letter : Cell
letter = record { ch = 120; attributes = 0; foreground = negsuc 0; background = negsuc 0 }

-- four rows of storage, of which the screen shows the last two
abbrev small : Terminal
small = record {
  columns = 3;
  rows = 2;
  storage = replicate 4 (replicate 3 letter);
  storage_rows = 4;
  top = 1;
  used = 4;
  view = 0;
  cursor_x = 3;
  cursor_y = 1;
  saved_x = 0;
  saved_y = 0;
  cursor_visible = true;
  attributes = 0;
  foreground = negsuc 0;
  background = negsuc 0;
  dirty_top = 1;
  dirty_bottom = 2;
  state = ground_state;
  parameters = replicate 16 0;
  parameter_count = 0;
  private_marker = false;
}

-- The whole display is erased, and one row is to be painted.
dirty-erase_in_display_example :
    ((erase_in_display 2 small).dirty_top ≡ 1) × ((erase_in_display 2 small).dirty_bottom ≡ 2)
dirty-erase_in_display_example = dirty-erase_in_display 2 small

-- a window of 640 by 400 pixels in cells of 8 by 16
