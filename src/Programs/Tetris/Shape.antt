-- ===== src/Programs/Tetris/Shape.antt =====
-- The blocks of Tetris.cpp: the board's size, the kinds of blocks, and the shapes of the pieces.
use electric_os.Base.{
  ℕ, zero, suc, ◌%◌, Bool, true, false, List, [], ◌∷◌, map, ◌==◌, if◌then◌else◌, Option, none, some,
}
use electric_os.Base.Int.{pos, negsuc, ◌*ℤ◌}
use electric_os.Stl.Point.{Point, point}

abbrev pub grid_width : ℕ
grid_width = 10

abbrev pub grid_height : ℕ
grid_height = 20

abbrev pub start_fall_rate : ℕ
start_fall_rate = 100

pub data BlockType : Type 0 where
  empty grid_outline light_blue dark_blue orange yellow purple green red : BlockType

abbrev pub is_empty : BlockType → Bool
is_empty empty = true
is_empty _ = false

-- `(BlockType)(n % 7 + 2)`
unfoldable pub block_type_of : ℕ → BlockType
block_type_of n =
    if n % 7 == 0
    then light_blue
    else if n % 7 == 1
    then dark_blue
    else if n % 7 == 2
    then orange
    else if n % 7 == 3
    then yellow
    else if n % 7 == 4
    then purple
    else if n % 7 == 5
    then green
    else red

-- `RotatePoint`
unfoldable pub rotate_point : Point → ℕ → Point
rotate_point p zero = p
rotate_point p (suc steps) = rotate_point (point p.y (p.x *ℤ negsuc 0)) steps

-- The static arrays of `GetShape`, in no rotation.
unfoldable pub piece : BlockType → Option (List Point)
piece light_blue = some (
    point (negsuc 0) (pos 0)
    ∷ point (pos 0) (pos 0)
    ∷ point (pos 1) (pos 0)
    ∷ point (pos 2) (pos 0)
    ∷ [])
piece dark_blue = some (
    point (pos 0) (pos 1)
    ∷ point (pos 0) (pos 0)
    ∷ point (pos 1) (pos 0)
    ∷ point (pos 2) (pos 0)
    ∷ [])
piece orange = some (
    point (negsuc 0) (pos 0)
    ∷ point (pos 0) (pos 0)
    ∷ point (pos 1) (pos 0)
    ∷ point (pos 1) (pos 1)
    ∷ [])
piece yellow = some (
    point (pos 1) (pos 1)
    ∷ point (pos 0) (pos 0)
    ∷ point (pos 1) (pos 0)
    ∷ point (pos 0) (pos 1)
    ∷ [])
piece purple = some (
    point (negsuc 0) (pos 0)
    ∷ point (pos 0) (pos 0)
    ∷ point (pos 0) (pos 1)
    ∷ point (pos 1) (pos 0)
    ∷ [])
piece green = some (
    point (negsuc 0) (pos 0)
    ∷ point (pos 0) (pos 0)
    ∷ point (pos 0) (pos 1)
    ∷ point (pos 1) (pos 1)
    ∷ [])
piece red = some (
    point (negsuc 0) (pos 1)
    ∷ point (pos 0) (pos 1)
    ∷ point (pos 0) (pos 0)
    ∷ point (pos 1) (pos 0)
    ∷ [])
piece _ = none

abbrev pub rotated : ℕ → Option (List Point) → Option (List Point)
rotated steps none = none
rotated steps (some ps) = some (map (λ p. rotate_point p steps) ps)

-- `GetShape`; its second parameter is a `uint8_t`.
unfoldable pub get_shape : BlockType → ℕ → Option (List Point)
get_shape type steps = rotated (steps % 256) (piece type)
