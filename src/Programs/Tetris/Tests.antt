-- ===== src/Programs/Tetris/Tests.antt =====
-- The theorems on Tetris at a concrete board.
use electric_os.Base.{
  ℕ, ◌-◌, ◌<◌, ◌≡◌, ◌≢◌, refl, arith, true, false, not, ◌&&◌, ◌||◌, leb, if◌then◌else◌, none,
}
use electric_os.Base.Int.{ℤ, pos, ltb_ℤ, ◌+ℤ◌}
use electric_os.Stl.Point.{point, add_point}
use electric_os.Programs.Tetris.{
  BlockType, empty, red, purple, Game, tick, key_press, procedure, line_full, left_edge,
  clear_lines, cell, get_shape, piece, rotate_point,
}
use electric_os.Programs.Tetris.Bounds.{on_board, all_on_board, IsPlaced, procedure-IsPlaced}
use electric_os.Programs.Tetris.Grid.{procedure-outside}
use electric_os.Programs.Tetris.Lines.{clear_lines-one}

-- The bottom row is full.
abbrev bottom : ℤ → BlockType
bottom i = if ltb_ℤ i (pos 190) || not (ltb_ℤ i (pos 200)) then empty else red

abbrev falling : Game
falling = record {
  grid = bottom;
  fall_rate = 100;
  animation = none;
  animation_counter = 0;
  position = point (pos 5) (pos 10);
  type = purple;
  rotation_steps = 0;
  seed = 1;
}

falling-IsPlaced : IsPlaced falling
unfolding all_on_board on_board get_shape piece rotate_point add_point ◌+ℤ◌
falling-IsPlaced = refl

procedure-IsPlaced_example : IsPlaced (procedure falling (tick 200)).0
procedure-IsPlaced_example = procedure-IsPlaced falling (tick 200) falling-IsPlaced

procedure-outside_example :
    (procedure falling (key_press b's')).0.grid (pos 200) ≡ falling.grid (pos 200)
procedure-outside_example =
    procedure-outside falling (key_press b's') (pos 200) falling-IsPlaced refl

bottom-full : line_full bottom 19 0 10 ≡ true
unfolding line_full
bottom-full = refl

bottom-others : (other : ℕ) → other < 20 → other ≢ 19 → line_full bottom other 0 10 ≡ false
unfolding line_full
bottom-others other small ne = ground arith

last_step : left_edge 10 ≡ 0
unfolding left_edge
last_step = refl

clear_lines-one_example :
    (clear_lines 10 bottom 0 20 false).0 (cell 3 19)
    ≡ (if leb 1 19 && leb 19 19 then bottom (cell 3 (19 - 1)) else bottom (cell 3 19))
clear_lines-one_example =
    clear_lines-one 10 19 3 19 bottom last_step (omega arith) bottom-full bottom-others
      (omega arith)
