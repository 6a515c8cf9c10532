-- ===== src/ProcessHandler/Window.antt =====
-- Windows stay on the screen.
use electric_os.Base.{ℕ, ◌+◌}
use electric_os.Base.Int.{ℤ, pos, ◌+ℤ◌, ◌-ℤ◌, ◌≤ℤ◌, int_laws}
use electric_os.Stl.Point.{Point, point}
use electric_os.Stl.Clamp.{clamp, clamp_bounds}
use electric_os.ProcessHandler.{
  Process, ProcessType, fullscreen, windowed, frameless_window, minimized, set_pos,
}

-- The room that a process takes left of its position and above it, where its frame is.
abbrev pub left_of : ProcessType → ℕ
left_of windowed = 4
left_of minimized = 4
left_of _ = 0

abbrev pub above : ProcessType → ℕ
above windowed = 34
above minimized = 34
above _ = 0

-- The room from its position on, for a size of which a minimized window keeps nothing.
abbrev pub from_position : ProcessType → ℕ → ℕ
from_position windowed n = n + 4
from_position minimized n = 4
from_position _ n = n

-- The process and its frame are on the screen.
pub record IsOnScreen (p : Process) (screen : Point) : Type 0 where
  pub left : pos (left_of p.type) ≤ℤ p.position.x
  pub right : p.position.x +ℤ pos (from_position p.type p.width) ≤ℤ screen.x
  pub top : pos (above p.type) ≤ℤ p.position.y
  pub bottom : p.position.y +ℤ pos (from_position p.type p.height) ≤ℤ screen.y

-- What clamping does for one side of a process.
side :
    (n : ℤ) (before room : ℕ) (upper screen : ℤ)
    → pos before ≤ℤ upper
    → upper +ℤ pos room ≤ℤ screen
    → (pos before ≤ℤ clamp n (pos before) upper)
      × (clamp n (pos before) upper +ℤ pos room ≤ℤ screen)
side n before room upper screen order fits =
    let bounds = clamp_bounds n (pos before) upper order in (bounds.0, omega int_laws)

-- On a screen that has room for the process and its frame, `SetPos` puts both on the screen, for
-- each kind of process and each position asked for.
set_pos-IsOnScreen :
    (p : Process) (screen new : Point)
    → pos (left_of p.type + from_position p.type p.width) ≤ℤ screen.x
    → pos (above p.type + from_position p.type p.height) ≤ℤ screen.y
    → IsOnScreen (set_pos p screen new) screen
unfolding set_pos
set_pos-IsOnScreen p screen new wide high =
    let sides = placed p.type wide high in
    record { left = sides.0.0; right = sides.0.1; top = sides.1.0; bottom = sides.1.1 }
  where
    position : ProcessType → Point
    position t =
        let w = pos p.width in
        let h = pos p.height in
        elim t [
          | windowed ↦
              point (clamp new.x (pos 4) (screen.x -ℤ w -ℤ pos 4))
                (clamp new.y (pos 34) (screen.y -ℤ h -ℤ pos 4))
          | minimized ↦
              point (clamp new.x (pos 4) (screen.x -ℤ pos 4))
                (clamp new.y (pos 34) (screen.y -ℤ pos 4))
          | _ ↦ point (clamp new.x (pos 0) (screen.x -ℤ w)) (clamp new.y (pos 0) (screen.y -ℤ h))
        ]

    placed :
        (t : ProcessType)
        → pos (left_of t + from_position t p.width) ≤ℤ screen.x
        → pos (above t + from_position t p.height) ≤ℤ screen.y
        → ((pos (left_of t) ≤ℤ (position t).x)
            × ((position t).x +ℤ pos (from_position t p.width) ≤ℤ screen.x))
          × ((pos (above t) ≤ℤ (position t).y)
              × ((position t).y +ℤ pos (from_position t p.height) ≤ℤ screen.y))
    placed fullscreen wide high = (
      side new.x 0 p.width _ screen.x (omega int_laws) (omega int_laws),
      side new.y 0 p.height _ screen.y (omega int_laws) (omega int_laws),
    )
    placed windowed wide high = (
      side new.x 4 (p.width + 4) _ screen.x (omega int_laws) (omega int_laws),
      side new.y 34 (p.height + 4) _ screen.y (omega int_laws) (omega int_laws),
    )
    placed frameless_window wide high = (
      side new.x 0 p.width _ screen.x (omega int_laws) (omega int_laws),
      side new.y 0 p.height _ screen.y (omega int_laws) (omega int_laws),
    )
    placed minimized wide high = (
      side new.x 4 4 _ screen.x (omega int_laws) (omega int_laws),
      side new.y 34 4 _ screen.y (omega int_laws) (omega int_laws),
    )
