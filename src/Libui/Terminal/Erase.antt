-- ===== src/Libui/Terminal/Erase.antt =====
-- user/libui/terminal.c: which rows the erasing sequences mark to be painted.
use shit_os.Prelude.{ℕ, zero, suc, ◌+◌, ◌≡◌, arith, ◌==◌, Bool-cases, inl, inr}
use shit_os.Libui.Terminal.Grid.{
  Terminal, screen_row, erase_row, clear_row, clear_rows, erase_line_start, erase_in_display,
}

record SameDirt (t u : Terminal) : Type 0 where
  top : u.dirty_top ≡ t.dirty_top
  bottom : u.dirty_bottom ≡ t.dirty_bottom

SameDirt-trans : {t u v : Terminal} → SameDirt t u → SameDirt u v → SameDirt t v
SameDirt-trans a b = ground arith

erase_row-SameDirt : (place from to : ℕ) (t : Terminal) → SameDirt t (erase_row place from to t)
unfolding erase_row
erase_row-SameDirt place from to t = ground arith

clear_rows-SameDirt : (count y : ℕ) (t : Terminal) → SameDirt t (clear_rows count y t)
unfolding clear_rows clear_row
clear_rows-SameDirt zero y t = ground arith
clear_rows-SameDirt (suc count) y t =
    SameDirt-trans (erase_row-SameDirt (screen_row t y) 0 t.columns t)
      (clear_rows-SameDirt count (y + 1) (clear_row (screen_row t y) t))

erase_in_display-SameDirt : (mode : ℕ) (t : Terminal) → SameDirt t (erase_in_display mode t)
unfolding erase_in_display erase_line_start
erase_in_display-SameDirt mode t = elim (Bool-cases (mode == 0)) [
  | inl e ↦ rw e (SameDirt-trans (erase_row-SameDirt _ _ _ t) (clear_rows-SameDirt _ _ _))
  | inr e ↦ elim (Bool-cases (mode == 1)) [
    | inl e1 ↦ rw (e, e1) (SameDirt-trans (clear_rows-SameDirt _ _ t) (erase_row-SameDirt _ _ _ _))
    | inr e1 ↦ rw (e, e1) (clear_rows-SameDirt _ _ t)
  ]
]

-- Whatever part of the display is erased, the range of rows to be painted stays as it was.
pub dirty-erase_in_display :
    (mode : ℕ) (t : Terminal)
    → ((erase_in_display mode t).dirty_top ≡ t.dirty_top)
      × ((erase_in_display mode t).dirty_bottom ≡ t.dirty_bottom)
dirty-erase_in_display mode t = (h.top, h.bottom)
  where
    h : SameDirt t (erase_in_display mode t)
    h = erase_in_display-SameDirt mode t
