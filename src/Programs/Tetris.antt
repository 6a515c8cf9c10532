-- ===== src/Programs/Tetris.antt =====
-- src/Programs/Tetris/Tetris.cpp: the board, the falling piece and the messages. What is drawn is
-- left out: the model follows the globals.
pub mod Shape
pub mod Pieces
pub mod Bounds
pub mod Lines
pub mod Grid
mod Tests
use electric_os.Base.{
  ℕ, zero, suc, ◌+◌, ◌-◌, ◌*◌, ◌/◌, ◌%◌, Bool, true, false, not, ◌&&◌, ◌||◌, List, [], ◌∷◌, map,
  ltb, leb, ◌==◌, if◌then◌else◌, Option, none, some, u64,
}
use electric_os.Base.Int.{ℤ, pos, negsuc, ◌+ℤ◌, ◌-ℤ◌, ◌*ℤ◌, ltb_ℤ, eqb_ℤ}
use electric_os.Stl.Math.{rand}
use electric_os.Stl.Point.{Point, point, add_point}
pub use electric_os.Programs.Tetris.Shape.{
  BlockType, empty, grid_outline, light_blue, dark_blue, orange, yellow, purple, green, red,
  grid_width, grid_height, start_fall_rate, is_empty, rotated,
}
unfoldable pub use electric_os.Programs.Tetris.Shape.{block_type_of, rotate_point, piece, get_shape}

-- The functions that `CurrentAnimation` points to.
pub data Animation : Type 0 where
  game_over line_clear splash_screen : Animation

-- The globals. The grid is indexed by an `int`, also outside of its 200 blocks.
pub record Game : Type 0 where
  pub grid : ℤ → BlockType
  pub fall_rate : ℕ
  pub animation : Option Animation
  pub animation_counter : ℕ
  pub position : Point
  pub type : BlockType
  pub rotation_steps : ℕ
  pub seed : ℕ

abbrev pub start_animation : Game → Option Animation → Game
start_animation s a = record s { animation_counter = 0; animation = a }

-- `BlockPos.X + BlockPos.Y * GRID_WIDTH`
pub block_index : Point → ℤ
block_index p = p.x +ℤ p.y *ℤ pos 10

pub set_block : (ℤ → BlockType) → Point → BlockType → ℤ → BlockType
set_block grid p t i = if eqb_ℤ i (block_index p) then t else grid i

-- The loop of `WritePiece`.
pub write_blocks : (ℤ → BlockType) → Point → List Point → BlockType → ℤ → BlockType
write_blocks grid origin [] t = grid
write_blocks grid origin (p ∷ ps) t =
    write_blocks (set_block grid (add_point origin p) t) origin ps t

pub write_shape : Game → Option (List Point) → BlockType → Game
write_shape s none t = s
write_shape s (some ps) t = record s { grid = write_blocks s.grid s.position ps t }

-- `CurrentPiece::Write`
pub write : Game → Game
write s = write_shape s (get_shape s.type s.rotation_steps) s.type

-- The condition under which `Move` and `Rotate` give up.
pub blocked : Game → Point → Bool
blocked s p =
    ltb_ℤ p.x (pos 0)
    || not (ltb_ℤ p.x (pos 10))
    || ltb_ℤ p.y (pos 0)
    || not (ltb_ℤ p.y (pos 20))
    || not (is_empty (s.grid (block_index p)))

pub any_blocked : Game → Point → List Point → Bool
any_blocked s origin [] = false
any_blocked s origin (p ∷ ps) = blocked s (add_point origin p) || any_blocked s origin ps

-- The loop of `Generate`, which starts the animation for each taken block.
pub check_spawn : Game → List Point → Game
check_spawn s [] = s
check_spawn s (p ∷ ps) =
    check_spawn
      (if is_empty (s.grid (block_index (add_point s.position p)))
        then s
        else start_animation s (some game_over))
      ps

abbrev pub check_shape : Game → Option (List Point) → Game
check_shape s none = s
check_shape s (some ps) = check_spawn s ps

-- `CurrentPiece::Generate`
pub generate : Game → Game
generate s =
    let drawn = rand s.seed in
    let s1 = record s {
      rotation_steps = 0;
      position = point (pos 5) (pos 0);
      type = block_type_of drawn.1;
      seed = drawn.0;
    } in
    check_shape s1 (get_shape s1.type s1.rotation_steps)

-- `Move` and `Rotate` first generate a piece where there is none.
pub with_piece : Game → Game
with_piece s = if is_empty s.type then generate s else s

abbrev pub move_shape : Game → Point → Option (List Point) → Game × Bool
move_shape s new_pos none = (s, false)
move_shape s new_pos (some ps) =
    if any_blocked s new_pos ps then (s, false) else (record s { position = new_pos }, true)

-- `CurrentPiece::Move`
pub move : Game → Point → Game × Bool
move s offset =
    let s1 = with_piece s in
    move_shape s1 (add_point s1.position offset) (get_shape s1.type s1.rotation_steps)

abbrev pub rotate_shape : Game → Option (List Point) → Game
rotate_shape s none = s
rotate_shape s (some ps) =
    if any_blocked s s.position ps
    then s
    else record s { rotation_steps = (s.rotation_steps + 1) % 256 }

-- `CurrentPiece::Rotate`
pub rotate : Game → Game
rotate s = let s1 = with_piece s in rotate_shape s1 (get_shape s1.type (s1.rotation_steps + 1))

-- `Grid[x + y * GRID_WIDTH]`
abbrev pub cell : ℕ → ℕ → ℤ
cell x y = pos (x + y * 10)

-- `ClearGrid`: the blocks of the grid become empty.
pub clear_grid : (ℤ → BlockType) → ℤ → BlockType
clear_grid grid i = if not (ltb_ℤ i (pos 0)) && ltb_ℤ i (pos 200) then empty else grid i

pub reset : Game → Game
reset s = record s { type = empty; grid = clear_grid s.grid }

-- A line has no empty block among `left` from `x` on.
pub line_full : (ℤ → BlockType) → ℕ → ℕ → ℕ → Bool
line_full grid y x zero = true
line_full grid y x (suc left) = not (is_empty (grid (cell x y))) && line_full grid y (x + 1) left

-- `Grid[x + y2 * W] = Grid[x + (y2 - 1) * W]` for the `left` blocks from `x` on.
pub copy_row : (ℤ → BlockType) → ℕ → ℕ → ℕ → ℤ → BlockType
copy_row grid y2 x zero = grid
copy_row grid y2 x (suc left) =
    copy_row (λ i. if eqb_ℤ i (cell x y2) then grid (cell x (y2 - 1)) else grid i) y2 (x + 1) left

-- The rows from `y2` up to 1 take the row above.
pub drop_rows : (ℤ → BlockType) → ℕ → ℤ → BlockType
drop_rows grid zero = grid
drop_rows grid (suc y) = drop_rows (copy_row grid (suc y) 0 10) y

-- `5 - AnimationCounter / AnimationSpeed` as a `uint8_t`.
pub left_edge : ℕ → ℕ
left_edge counter = (5 + (256 - counter / 2 % 256)) % 256

-- The loop over the lines from `y` on: the grid, and whether a full line was found.
pub clear_lines : ℕ → (ℤ → BlockType) → ℕ → ℕ → Bool → (ℤ → BlockType) × Bool
clear_lines counter grid y zero found = (grid, found)
clear_lines counter grid y (suc left) found =
    let full = line_full grid y 0 10 in
    clear_lines counter (if full && (left_edge counter == 0) then drop_rows grid y else grid)
      (y + 1) left (full || found)

pub line_clear_animation : Game → Game
line_clear_animation s =
    let r = clear_lines s.animation_counter s.grid 0 20 false in
    let s1 = record s { grid = r.0 } in if r.1 then s1 else start_animation s1 none

pub game_over_animation : Game → Game
game_over_animation s = if leb s.animation_counter 1 then reset s else s

pub animate : Game → Animation → Game
animate s game_over = game_over_animation s
animate s line_clear = line_clear_animation s
animate s splash_screen = s

-- The answers to the process handler that this program gives.
pub data Answer : Type 0 where
  success draw : Answer

abbrev pub draw_frame : Game → Option Animation → Game × Answer
draw_frame s none = (s, success)
draw_frame s (some a) =
    let s1 = animate s a in
    (
      record s1 { animation_counter = u64 (s1.animation_counter + 1) },
      elim s1.animation [ none ↦ draw | some _ ↦ success ],
    )

-- `DRAW`
pub on_draw : Game → Game × Answer
on_draw s = draw_frame s s.animation

-- A piece that cannot go down is written, and the next one is generated.
pub land : Game → Game
land s = generate (start_animation (write s) (some line_clear))

pub step_down : Game → Game
step_down s = let r = move s (point (pos 0) (pos 1)) in if r.1 then r.0 else land r.0

abbrev pub tick_game : Game → ℕ → Option Animation → Game × Answer
tick_game s t (some _) = (s, draw)
tick_game s t none = if t % s.fall_rate == 0 then (step_down s, draw) else (s, success)

-- `TICK`
pub on_tick : Game → ℕ → Game × Answer
on_tick s t = tick_game s t s.animation

-- ENTER ends the animation.
abbrev pub skip_animation : Game → ℕ → Option Animation → Game
skip_animation s key none = s
skip_animation s key (some _) = if key == 0x1C then start_animation s none else s

-- `KEYPRESS`
pub on_key : Game → ℕ → Game × Answer
on_key s key =
    let s1 = skip_animation s key s.animation in
    (
      if key == b's'
          then step_down s1
          else if key == b'a'
          then (move s1 (point (negsuc 0) (pos 0))).0
          else if key == b'd'
          then (move s1 (point (pos 1) (pos 0))).0
          else if key == b'r'
          then rotate s1
          else s1,
      draw,
    )

-- `INIT`, without the window's data.
pub on_init : Game → Game × Answer
on_init s =
    let s1 = reset s in
    (start_animation (record s1 { grid = clear_grid s1.grid }) (some splash_screen), success)

-- `STL::PROM`, the messages that this program answers; all others are `mouse` here.
pub data Message : Type 0 where
  init draw_window mouse : Message
  tick key_press : ℕ → Message

-- `Procedure`
pub procedure : Game → Message → Game × Answer
procedure s init = on_init s
procedure s draw_window = on_draw s
procedure s (tick t) = on_tick s t
procedure s (key_press key) = on_key s key
procedure s mouse = (s, draw)
