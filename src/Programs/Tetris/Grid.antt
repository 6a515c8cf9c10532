-- ===== src/Programs/Tetris/Grid.antt =====
-- The program writes no block outside of its grid.
use electric_os.Base.{
  ℕ, zero, suc, ◌+◌, ◌%◌, ◌<◌, ◌≤◌, Bool, true, false, not, ◌&&◌, leb, ◌==◌, ◌≡◌, refl, ◌∙◌, arith,
  if_both, List, [], ◌∷◌, Option, none, some,
}
use electric_os.Base.Int.{ℤ, pos, eqb_ℤ, ltb_ℤ, ◌+ℤ◌, ◌*ℤ◌}
use electric_os.Stl.Point.{Point, point, add_point}
use electric_os.Programs.Tetris.{
  BlockType, line_full, left_edge, cell, copy_row, drop_rows, clear_lines, block_index, set_block,
  write_blocks, Game, Animation, game_over, line_clear, splash_screen, write_shape, write,
  get_shape, with_piece, move_shape, move, rotate_shape, rotate, clear_grid, reset, animate,
  line_clear_animation, game_over_animation, draw_frame, on_draw, land, step_down, tick_game,
  on_tick, skip_animation, on_key, on_init, Message, init, draw_window, mouse, tick, key_press,
  procedure, Answer, is_empty, any_blocked, start_animation,
}
use electric_os.Programs.Tetris.Bounds.{
  on_board, all_on_board, shape_on_board, IsPlaced, generate-grid, move-IsPlaced,
  skip_animation-IsPlaced,
}

-- The index of none of the 200 blocks.
abbrev pub IsOutside : ℤ → Type 0
IsOutside i = not (ltb_ℤ i (pos 0)) && ltb_ℤ i (pos 200) ≡ false

block_index-inside :
    (p : Point) → on_board p ≡ true → (i : ℤ) → IsOutside i → eqb_ℤ i (block_index p) ≡ false
unfolding on_board block_index ◌+ℤ◌ ◌*ℤ◌
block_index-inside p h i o = ground arith

and_split : (a b : Bool) → a && b ≡ true → (a ≡ true) × (b ≡ true)
and_split true b h = (refl, h)
and_split false b h = ground arith

module _ (i : ℤ) (outside : IsOutside i) where
  write_blocks-outside :
      (ps : List Point) (origin : Point) (grid : ℤ → BlockType) (t : BlockType)
      → all_on_board origin ps ≡ true
      → write_blocks grid origin ps t i ≡ grid i
  unfolding write_blocks all_on_board set_block
  write_blocks-outside [] origin grid t h = refl
  write_blocks-outside (p ∷ ps) origin grid t h =
      let (here, there) = and_split (on_board (add_point origin p)) (all_on_board origin ps) h in
      write_blocks-outside ps origin _ t there
      ∙ rw (block_index-inside (add_point origin p) here i outside) refl

  write_shape-outside :
      (s : Game) (shape : Option (List Point)) (t : BlockType)
      → shape_on_board s.position shape ≡ true
      → (write_shape s shape t).grid i ≡ s.grid i
  unfolding write_shape
  write_shape-outside s none t h = refl
  write_shape-outside s (some ps) t h = write_blocks-outside ps s.position s.grid t h

  copy_row-outside :
      (left x y : ℕ) (grid : ℤ → BlockType)
      → x + left ≤ 10
      → y < 20
      → copy_row grid y x left i ≡ grid i
  unfolding copy_row
  copy_row-outside zero x y grid h small = refl
  copy_row-outside (suc left) x y grid h small =
      let other : eqb_ℤ i (cell x y) ≡ false = ground arith in
      copy_row-outside left (x + 1) y _ (omega arith) small ∙ rw (other) refl

  drop_rows-outside : (y : ℕ) (grid : ℤ → BlockType) → y < 20 → drop_rows grid y i ≡ grid i
  unfolding drop_rows
  drop_rows-outside zero grid small = refl
  drop_rows-outside (suc y) grid small =
      drop_rows-outside y _ (omega arith) ∙ copy_row-outside 10 0 (suc y) grid (omega arith) small

  clear_lines-outside :
      (left counter y : ℕ) (grid : ℤ → BlockType) (found : Bool)
      → y + left ≤ 20
      → (clear_lines counter grid y left found).0 i ≡ grid i
  unfolding clear_lines
  clear_lines-outside zero counter y grid found h = refl
  clear_lines-outside (suc left) counter y grid found h =
      clear_lines-outside left counter (y + 1) _ _ (omega arith)
      ∙ if_both {A = ℤ → BlockType} (λ g. g i ≡ grid i)
          (line_full grid y 0 10 && left_edge counter == 0) {x = drop_rows grid y} {y = grid}
          (drop_rows-outside y grid (omega arith)) refl

  clear_grid-outside : (grid : ℤ → BlockType) → clear_grid grid i ≡ grid i
  unfolding clear_grid
  clear_grid-outside grid = rw (outside) refl

  animate-outside : (s : Game) (a : Animation) → (animate s a).grid i ≡ s.grid i
  unfolding animate line_clear_animation game_over_animation reset
  animate-outside s game_over =
      if_both (λ (t : Game). t.grid i ≡ s.grid i) (leb s.animation_counter 1)
        (clear_grid-outside s.grid) refl
  animate-outside s line_clear =
      let same = clear_lines-outside 20 s.animation_counter 0 s.grid false (omega arith) in
      if_both (λ (t : Game). t.grid i ≡ s.grid i)
        (clear_lines s.animation_counter s.grid 0 20 false).1 same same
  animate-outside s splash_screen = refl

  draw_frame-outside : (s : Game) (a : Option Animation) → (draw_frame s a).0.grid i ≡ s.grid i
  draw_frame-outside s none = refl
  draw_frame-outside s (some a) = animate-outside s a

  with_piece-outside : (s : Game) → (with_piece s).grid i ≡ s.grid i
  unfolding with_piece
  with_piece-outside s =
      if_both (λ (t : Game). t.grid i ≡ s.grid i) (is_empty s.type) (λ k. generate-grid s k i) refl

  move_shape-outside :
      (s : Game) (p : Point) (shape : Option (List Point))
      → (move_shape s p shape).0.grid i ≡ s.grid i
  move_shape-outside s p none = refl
  move_shape-outside s p (some ps) =
      if_both {A = Game × Bool} (λ r. r.0.grid i ≡ s.grid i) (any_blocked s p ps) refl refl

  move-outside : (s : Game) (p : Point) → (move s p).0.grid i ≡ s.grid i
  unfolding move
  move-outside s p = move_shape-outside (with_piece s) _ _ ∙ with_piece-outside s

  rotate_shape-outside :
      (s : Game) (shape : Option (List Point)) → (rotate_shape s shape).grid i ≡ s.grid i
  rotate_shape-outside s none = refl
  rotate_shape-outside s (some ps) =
      if_both (λ (t : Game). t.grid i ≡ s.grid i) (any_blocked s s.position ps) refl refl

  rotate-outside : (s : Game) → (rotate s).grid i ≡ s.grid i
  unfolding rotate
  rotate-outside s = rotate_shape-outside (with_piece s) _ ∙ with_piece-outside s

  land-outside : (s : Game) → IsPlaced s → (land s).grid i ≡ s.grid i
  unfolding land write
  land-outside s placed =
      (λ k. generate-grid (start_animation (write s) (some line_clear)) k i)
      ∙ write_shape-outside s (get_shape s.type s.rotation_steps) s.type placed

  step_down-outside : (s : Game) → IsPlaced s → (step_down s).grid i ≡ s.grid i
  unfolding step_down
  step_down-outside s placed =
      let down = point (pos 0) (pos 1) in
      if_both (λ (t : Game). t.grid i ≡ s.grid i) (move s down).1 (move-outside s down)
        (land-outside (move s down).0 (move-IsPlaced s down placed) ∙ move-outside s down)

  tick_game-outside :
      (s : Game) (t : ℕ) (a : Option Animation) → IsPlaced s → (tick_game s t a).0.grid i ≡ s.grid i
  tick_game-outside s t none placed =
      if_both {A = Game × Answer} (λ r. r.0.grid i ≡ s.grid i) (t % s.fall_rate == 0)
        (step_down-outside s placed) refl
  tick_game-outside s t (some a) placed = refl

  skip_animation-outside :
      (s : Game) (key : ℕ) (a : Option Animation) → (skip_animation s key a).grid i ≡ s.grid i
  skip_animation-outside s key none = refl
  skip_animation-outside s key (some a) =
      if_both (λ (t : Game). t.grid i ≡ s.grid i) (key == 0x1C) refl refl

  on_key-outside : (s : Game) (key : ℕ) → IsPlaced s → (on_key s key).0.grid i ≡ s.grid i
  unfolding on_key
  on_key-outside s key placed =
      let s1 = skip_animation s key s.animation in
      let same = skip_animation-outside s key s.animation in
      let P : Game → Type 0 = λ t. t.grid i ≡ s.grid i in
      if_both P (key == b's')
        (step_down-outside s1 (skip_animation-IsPlaced s key s.animation placed) ∙ same)
        (if_both P (key == b'a') (move-outside s1 _ ∙ same) (
          if_both P (key == b'd') (move-outside s1 _ ∙ same)
            (if_both P (key == b'r') (rotate-outside s1 ∙ same) same)))

-- While the blocks of the current piece are on the board, no message changes an index outside of
-- the 200 blocks of the grid.
pub procedure-outside :
    (s : Game) (m : Message) (i : ℤ)
    → IsPlaced s
    → IsOutside i
    → (procedure s m).0.grid i ≡ s.grid i
unfolding procedure on_init reset on_tick on_draw
procedure-outside s init i placed o =
    clear_grid-outside i o (clear_grid s.grid) ∙ clear_grid-outside i o s.grid
procedure-outside s draw_window i placed o = draw_frame-outside i o s s.animation
procedure-outside s (tick t) i placed o = tick_game-outside i o s t s.animation placed
procedure-outside s (key_press key) i placed o = on_key-outside i o s key placed
procedure-outside s mouse i placed o = refl
