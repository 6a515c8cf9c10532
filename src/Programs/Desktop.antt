-- ===== src/Programs/Desktop.antt =====
-- src/Programs/Desktop/Desktop.cpp: the background, which fades in, and then starts the top bar.
-- `DRAW` leads to the new state, the buffer, the answer, and the texts that `STL::System` is called
-- with.
use electric_os.Base.{ℕ, ◌+◌, ◌*◌, ◌/◌, ◌%◌, Bool, true, false, List, [], ◌∷◌, ltb, if◌then◌else◌}
use electric_os.Stl.Framebuffer.{Argb, Framebuffer, fill}
use electric_os.ProcessHandler.{Request, success, draw}

-- Whether `CurrentAnimation` is set, with its counter.
pub record Desktop : Type 0 where
  pub animated : Bool
  pub animation_counter : ℕ

abbrev pub background_color : Argb
background_color = record { b = 180; g = 120; r = 60; a = 255 }

-- `INIT`
abbrev pub start : Desktop
start = record { animated = true; animation_counter = 0 }

-- `ARGB::operator/` and `operator*` by a byte.
pub div_color : Argb → ℕ → Argb
div_color c n = record { b = c.b / n; g = c.g / n; r = c.r / n; a = c.a / n }

pub mul_color : Argb → ℕ → Argb
mul_color c n = record {
  b = c.b * n % 256;
  g = c.g * n % 256;
  r = c.r * n % 256;
  a = c.a * n % 256;
}

-- The color of a round of `OpenAnimation`; the counter is cast to a byte.
pub fade_color : ℕ → Argb
unfolding div_color mul_color
fade_color counter = mul_color (div_color background_color 60) (counter % 256)

abbrev pub show_mouse : List ℕ
show_mouse =
    b's' ∷ b'e' ∷ b't' ∷ b' ' ∷ b'd' ∷ b'r' ∷ b'a' ∷ b'w' ∷ b'm' ∷ b'o' ∷ b'u' ∷ b's' ∷ b'e' ∷ b' '
    ∷ b'1' ∷ []

abbrev pub start_topbar : List ℕ
start_topbar =
    b's' ∷ b't' ∷ b'a' ∷ b'r' ∷ b't' ∷ b' ' ∷ b't' ∷ b'o' ∷ b'p' ∷ b'b' ∷ b'a' ∷ b'r' ∷ []

-- `OpenAnimation`
pub open_animation : Desktop → Framebuffer → Desktop × Framebuffer × List (List ℕ)
unfolding fade_color
open_animation s fb =
    if ltb 60 s.animation_counter
    then (
      record { animated = false; animation_counter = 0 },
      fill fb background_color,
      show_mouse ∷ start_topbar ∷ [],
    )
    else (s, fill fb (fade_color s.animation_counter), [])

-- `DRAW`
pub draw_on : Desktop → Framebuffer → Desktop × Framebuffer × Request × List (List ℕ)
unfolding open_animation
draw_on s fb =
    let (t, gb, commands) = open_animation s fb in
    if s.animated
    then (
      record t { animation_counter = t.animation_counter + 1 },
      gb,
      (if t.animated then success else draw),
      commands,
    )
    else (s, fb, success, [])

-- `TICK`
abbrev pub tick : Desktop → Request
tick s = if s.animated then draw else success
