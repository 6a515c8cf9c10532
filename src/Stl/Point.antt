-- ===== src/Stl/Point.antt =====
-- src/STL/Math/Point.cpp, and the tests on points of Math.cpp. Coordinates are integers: where an
-- `int32_t` would overflow, the source is undefined.
use electric_os.Base.{Bool, ◌&&◌}
use electric_os.Base.Int.{ℤ, ◌+ℤ◌, ◌-ℤ◌, ltb_ℤ}

-- `STL::Point`
pub record Point : Type 0 where
  pub x : ℤ
  pub y : ℤ

abbrev pub point : ℤ → ℤ → Point
point a b = record { x = a; y = b }

-- `operator+` on two points
unfoldable pub add_point : Point → Point → Point
add_point p q = point (p.x +ℤ q.x) (p.y +ℤ q.y)

-- `operator-` on two points
unfoldable pub sub_point : Point → Point → Point
sub_point p q = point (p.x -ℤ q.x) (p.y -ℤ q.y)

-- `Contains(TopLeft, BottomRight, Pos)`
unfoldable pub contains : Point → Point → Point → Bool
contains top_left bottom_right p =
    ltb_ℤ top_left.x p.x
    && ltb_ℤ p.x bottom_right.x
    && ltb_ℤ top_left.y p.y
    && ltb_ℤ p.y bottom_right.y
