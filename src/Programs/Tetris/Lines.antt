-- ===== src/Programs/Tetris/Lines.antt =====
-- What clearing a line does to the grid.
use electric_os.Base.{
  ℕ, zero, suc, ◌+◌, ◌-◌, ◌<◌, ◌≤◌, Bool, true, false, ◌&&◌, ltb, leb, ◌==◌, if◌then◌else◌, ◌≡◌,
  ◌≢◌, ◌⊎◌, inl, inr, refl, ap, ◌∙◌, arith,
}
use electric_os.Base.Int.{ℤ, eqb_ℤ}
use electric_os.Programs.Tetris.{
  BlockType, cell, line_full, copy_row, drop_rows, left_edge, clear_lines,
}

module _ (y2 : ℕ) (low : 1 ≤ y2) where
  pub copy_row-at :
      (left x : ℕ) (grid : ℤ → BlockType) (a b : ℕ)
      → x + left ≤ 10
      → a < 10
      → copy_row grid y2 x left (cell a b) ≡ (
          if b == y2 && leb x a && ltb a (x + left)
          then grid (cell a (y2 - 1))
          else grid (cell a b))
  unfolding copy_row
  copy_row-at zero x grid a b h ha = ground arith
  copy_row-at (suc left) x grid a b h ha =
      let rest =
        copy_row-at left (x + 1)
          (λ i. if eqb_ℤ i (cell x y2) then grid (cell x (y2 - 1)) else grid i) a b (omega arith)
          ha in
      rest ∙ (ground arith)

pub drop_rows-at :
    (y : ℕ) (grid : ℤ → BlockType) (a b : ℕ)
    → a < 10
    → drop_rows grid y (cell a b)
      ≡ (if leb 1 b && leb b y then grid (cell a (b - 1)) else grid (cell a b))
unfolding drop_rows
drop_rows-at zero grid a b ha = ground arith
drop_rows-at (suc y) grid a b ha =
    let rest = drop_rows-at y (copy_row grid (suc y) 0 10) a b ha in
    let here = copy_row-at (suc y) (omega arith) 10 0 grid a b (omega arith) ha in
    let above = copy_row-at (suc y) (omega arith) 10 0 grid a (b - 1) (omega arith) ha in
    ground arith

-- A board on which `y` is the only full line: where the sweep over the line ends, the rows from 1 to
-- `y` take the row above, and nothing else happens.
line_full-below :
    (grid : ℤ → BlockType) (y b x left : ℕ)
    → y < b
    → x + left ≤ 10
    → line_full (drop_rows grid y) b x left ≡ line_full grid b x left
unfolding line_full
line_full-below grid y b x zero h small = refl
line_full-below grid y b x (suc left) h small =
    let rest = line_full-below grid y b (x + 1) left h (omega arith) in
    let here : drop_rows grid y (cell x b) ≡ grid (cell x b) =
      drop_rows-at y grid x b (omega arith) ∙ ground arith in
    rw (rest, here) refl

at_or_after : (y full : ℕ) → y ≤ full → (y ≡ full) ⊎ (y < full)
at_or_after y full h = omega arith

module _ (counter : ℕ) where
  without_full :
      (left y : ℕ) (grid : ℤ → BlockType) (found : Bool)
      → ((b : ℕ) → y ≤ b → b < y + left → line_full grid b 0 10 ≡ false)
      → clear_lines counter grid y left found ≡ (grid, found)
  unfolding clear_lines
  without_full zero y grid found none_full = refl
  without_full (suc left) y grid found none_full =
      rw (none_full y (omega arith) (omega arith))
        (without_full left (y + 1) grid found (λ b h1 h2. none_full b (omega arith) (omega arith)))

  one_full :
      (left y full : ℕ) (grid : ℤ → BlockType) (found : Bool)
      → left_edge counter ≡ 0
      → y ≤ full
      → full < y + left
      → line_full grid full 0 10 ≡ true
      → ((b : ℕ) → y ≤ b → b < y + left → b ≢ full → line_full grid b 0 10 ≡ false)
      → clear_lines counter grid y left found ≡ (drop_rows grid full, true)
  unfolding clear_lines
  one_full zero y full grid found edge low high is_full others = ground arith
  one_full (suc left) y full grid found edge low high is_full others =
      elim (at_or_after y full low) [
        | inl e ↦
            let here : line_full grid y 0 10 ≡ true = ap (λ b. line_full grid b 0 10) e ∙ is_full in
            rw (here, edge)
              (without_full left (y + 1) (drop_rows grid y) true (λ b h1 h2.
                  line_full-below grid y b 0 10 (omega arith) (omega arith)
                  ∙ others b (omega arith) (omega arith) (omega arith))
                ∙ ap (λ b. (drop_rows grid b, true)) e)
        | inr lt ↦ rw (others y (omega arith) (omega arith) (omega arith)) (
            one_full left (y + 1) full grid found edge (omega arith) (omega arith) is_full
              (λ b h1 h2 ne. others b (omega arith) (omega arith) ne))
      ]

-- On a board where `full` is the only full line, the last step of the line animation moves each
-- row from 0 to `full` - 1 down by one and changes no other block: row 0 keeps its blocks.
pub clear_lines-one :
    (counter full a b : ℕ) (grid : ℤ → BlockType)
    → left_edge counter ≡ 0
    → full < 20
    → line_full grid full 0 10 ≡ true
    → ((other : ℕ) → other < 20 → other ≢ full → line_full grid other 0 10 ≡ false)
    → a < 10
    → (clear_lines counter grid 0 20 false).0 (cell a b)
      ≡ (if leb 1 b && leb b full then grid (cell a (b - 1)) else grid (cell a b))
clear_lines-one counter full a b grid edge small is_full others ha =
    (λ i.
      (one_full counter 20 0 full grid false edge (omega arith) (omega arith) is_full
          (λ other h1 h2 ne. others other h2 ne) i).0
        (cell a b))
    ∙ drop_rows-at full grid a b ha
