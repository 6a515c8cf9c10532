-- ===== src/Programs/Tetris/Bounds.antt =====
-- The falling piece stays on the board.
use electric_os.Base.{
  ℕ, ◌+◌, ◌%◌, Bool, true, false, not, ◌&&◌, leb, ◌==◌, if◌then◌else◌, ◌≡◌, inl, inr, refl, sym, ap,
  ◌∙◌, arith, List, [], ◌∷◌, Option, none, some, subst, Bool-cases, if_both,
}
use electric_os.Base.Int.{pos, ◌+ℤ◌, ltb_ℤ}
use electric_os.Stl.Math.{rand}
use electric_os.Stl.Point.{Point, point, add_point}
use electric_os.Programs.Tetris.{
  BlockType, empty, grid_outline, light_blue, dark_blue, orange, yellow, purple, green, red, Game,
  Animation, game_over, line_clear, splash_screen, is_empty, block_type_of, piece, rotated,
  rotate_point, get_shape, clear_lines, blocked, any_blocked, check_spawn, check_shape, generate,
  with_piece, move_shape, move, rotate_shape, rotate, reset, animate, line_clear_animation,
  game_over_animation, on_draw, land, step_down, on_tick, skip_animation, on_key, on_init, Message,
  init, draw_window, mouse, tick_game, draw_frame, Answer, tick, key_press, procedure,
  start_animation,
}

-- A point of the 10 by 20 blocks.
unfoldable pub on_board : Point → Bool
on_board p =
    not (ltb_ℤ p.x (pos 0)) && ltb_ℤ p.x (pos 10) && not (ltb_ℤ p.y (pos 0)) && ltb_ℤ p.y (pos 20)

unfoldable pub all_on_board : Point → List Point → Bool
all_on_board origin [] = true
all_on_board origin (p ∷ ps) = on_board (add_point origin p) && all_on_board origin ps

abbrev pub shape_on_board : Point → Option (List Point) → Bool
shape_on_board origin none = true
shape_on_board origin (some ps) = all_on_board origin ps

-- The blocks of the current piece, where there is one, are on the board.
abbrev pub IsPlaced : Game → Type 0
IsPlaced s = shape_on_board s.position (get_shape s.type s.rotation_steps) ≡ true

spawn_placed : (t : BlockType) → shape_on_board (point (pos 5) (pos 0)) (get_shape t 0) ≡ true
unfolding get_shape piece rotate_point all_on_board on_board add_point ◌+ℤ◌
spawn_placed empty = refl
spawn_placed grid_outline = refl
spawn_placed light_blue = refl
spawn_placed dark_blue = refl
spawn_placed orange = refl
spawn_placed yellow = refl
spawn_placed purple = refl
spawn_placed green = refl
spawn_placed red = refl

-- A game without its animation: what the piece and the grid depend on.
abbrev core : Game → Game
core s = start_animation s none

core-if :
    (b : Bool) (s : Game) (a : Option Animation)
    → core (if b then s else start_animation s a) ≡ core s
core-if true s a = refl
core-if false s a = refl

check_spawn-core : (ps : List Point) (s : Game) → core (check_spawn s ps) ≡ core s
unfolding check_spawn
check_spawn-core [] s = refl
check_spawn-core (p ∷ ps) s = check_spawn-core ps _ ∙ core-if _ s (some game_over)

check_shape-core : (s : Game) (shape : Option (List Point)) → core (check_shape s shape) ≡ core s
check_shape-core s none = refl
check_shape-core s (some ps) = check_spawn-core ps s

-- Looking for a free place changes the animation alone.
pub generate-grid : (s : Game) → (generate s).grid ≡ s.grid
unfolding generate
generate-grid s =
    ap (λ t. t.grid) (check_shape-core _ (get_shape (block_type_of (rand s.seed).1) 0))

pub generate-IsPlaced : (s : Game) → IsPlaced (generate s)
unfolding generate
generate-IsPlaced s =
    subst (λ t. IsPlaced t) (sym (check_shape-core _ (get_shape (block_type_of (rand s.seed).1) 0)))
      (spawn_placed (block_type_of (rand s.seed).1))

-- Blocks among which none is in the way are on the board.
pub any_blocked-placed :
    (s : Game) (origin : Point) (ps : List Point)
    → any_blocked s origin ps ≡ false
    → all_on_board origin ps ≡ true
unfolding any_blocked all_on_board blocked on_board
any_blocked-placed s origin [] h = refl
any_blocked-placed s origin (p ∷ ps) h = let rest = any_blocked-placed s origin ps in ground arith

move_shape-IsPlaced :
    (s : Game) (new_pos : Point) (shape : Option (List Point))
    → get_shape s.type s.rotation_steps ≡ shape
    → IsPlaced s
    → IsPlaced (move_shape s new_pos shape).0
move_shape-IsPlaced s new_pos none e placed = placed
move_shape-IsPlaced s new_pos (some ps) e placed = elim (Bool-cases (any_blocked s new_pos ps)) [
  | inl h ↦ rw (h) placed
  | inr h ↦ rw (h, e) (any_blocked-placed s new_pos ps h)
]

rotate_shape-IsPlaced :
    (s : Game) (shape : Option (List Point))
    → get_shape s.type ((s.rotation_steps + 1) % 256) ≡ shape
    → IsPlaced s
    → IsPlaced (rotate_shape s shape)
rotate_shape-IsPlaced s none e placed = placed
rotate_shape-IsPlaced s (some ps) e placed = elim (Bool-cases (any_blocked s s.position ps)) [
  | inl h ↦ rw (h) placed
  | inr h ↦ rw (h, e) (any_blocked-placed s s.position ps h)
]

shape_wraps : (t : BlockType) (steps : ℕ) → get_shape t (steps % 256) ≡ get_shape t steps
unfolding get_shape
shape_wraps t steps = ap (λ n. rotated n (piece t)) (omega arith)

with_piece-IsPlaced : (s : Game) → IsPlaced s → IsPlaced (with_piece s)
unfolding with_piece
with_piece-IsPlaced s placed = elim (Bool-cases (is_empty s.type)) [
  | inl h ↦ rw (h) (generate-IsPlaced s)
  | inr h ↦ rw (h) placed
]

pub move-IsPlaced : (s : Game) (offset : Point) → IsPlaced s → IsPlaced (move s offset).0
unfolding move
move-IsPlaced s offset placed =
    move_shape-IsPlaced (with_piece s) _ _ refl (with_piece-IsPlaced s placed)

pub rotate-IsPlaced : (s : Game) → IsPlaced s → IsPlaced (rotate s)
unfolding rotate
rotate-IsPlaced s placed =
    rotate_shape-IsPlaced (with_piece s) _ (shape_wraps _ _) (with_piece-IsPlaced s placed)

step_down-IsPlaced : (s : Game) → IsPlaced s → IsPlaced (step_down s)
unfolding step_down land
step_down-IsPlaced s placed = elim (Bool-cases (move s (point (pos 0) (pos 1))).1) [
  | inl h ↦ rw (h) (move-IsPlaced s _ placed)
  | inr h ↦ rw (h) (generate-IsPlaced _)
]

tick_game-IsPlaced :
    (s : Game) (t : ℕ) (a : Option Animation) → IsPlaced s → IsPlaced (tick_game s t a).0
tick_game-IsPlaced s t none placed =
    if_both {A = Game × Answer} (λ r. IsPlaced r.0) (t % s.fall_rate == 0)
      (step_down-IsPlaced s placed) placed
tick_game-IsPlaced s t (some a) placed = placed

pub skip_animation-IsPlaced :
    (s : Game) (key : ℕ) (a : Option Animation) → IsPlaced s → IsPlaced (skip_animation s key a)
skip_animation-IsPlaced s key none placed = placed
skip_animation-IsPlaced s key (some a) placed =
    if_both (λ t. IsPlaced t) (key == 0x1C) placed placed

on_key-IsPlaced : (s : Game) (key : ℕ) → IsPlaced s → IsPlaced (on_key s key).0
unfolding on_key
on_key-IsPlaced s key placed =
    let q = skip_animation-IsPlaced s key s.animation placed in
    if_both (λ t. IsPlaced t) (key == b's') (step_down-IsPlaced _ q)
      (if_both (λ t. IsPlaced t) (key == b'a') (move-IsPlaced _ _ q)
        (if_both (λ t. IsPlaced t) (key == b'd') (move-IsPlaced _ _ q)
          (if_both (λ t. IsPlaced t) (key == b'r') (rotate-IsPlaced _ q) q)))

reset-IsPlaced : (s : Game) → IsPlaced (reset s)
unfolding reset get_shape piece
reset-IsPlaced s = refl

animate-IsPlaced : (s : Game) (a : Animation) → IsPlaced s → IsPlaced (animate s a)
unfolding animate line_clear_animation game_over_animation
animate-IsPlaced s game_over placed =
    if_both (λ t. IsPlaced t) (leb s.animation_counter 1) (reset-IsPlaced s) placed
animate-IsPlaced s line_clear placed =
    if_both (λ t. IsPlaced t) (clear_lines s.animation_counter s.grid 0 20 false).1 placed placed
animate-IsPlaced s splash_screen placed = placed

draw_frame-IsPlaced : (s : Game) (a : Option Animation) → IsPlaced s → IsPlaced (draw_frame s a).0
draw_frame-IsPlaced s none placed = placed
draw_frame-IsPlaced s (some a) placed = animate-IsPlaced s a placed

-- If the blocks of the current piece are on the 10 by 20 board, they are on it after each
-- message.
pub procedure-IsPlaced : (s : Game) (m : Message) → IsPlaced s → IsPlaced (procedure s m).0
unfolding procedure on_init on_tick on_draw
procedure-IsPlaced s init placed = reset-IsPlaced s
procedure-IsPlaced s draw_window placed = draw_frame-IsPlaced s s.animation placed
procedure-IsPlaced s (tick t) placed = tick_game-IsPlaced s t s.animation placed
procedure-IsPlaced s (key_press key) placed = on_key-IsPlaced s key placed
procedure-IsPlaced s mouse placed = placed
