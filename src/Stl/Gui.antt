-- ===== src/Stl/Gui.antt =====
-- src/STL/GUI/Button.cpp and Label.cpp: buttons with their state, labels, and how both are drawn.
-- Of the mouse, only its left button is read. `font` and `size` are those of `PutChar`.
use electric_os.Base.{ℕ, ◌+◌, ◌*◌, ◌/◌, Bool, true, false, not, ◌&&◌, List, length, if◌then◌else◌}
use electric_os.Base.Int.{ℤ, pos, negsuc, sub_ℕ, ◌+ℤ◌, ◌-ℤ◌, ltb_ℤ}
use electric_os.Stl.Point.{Point, point}
use electric_os.Stl.Framebuffer.{Argb, gray, Framebuffer, draw_rect}
use electric_os.Stl.Framebuffer.Edges.{raised_width, draw_raised_rect, draw_sunken_rect}
use electric_os.Stl.Framebuffer.Text.{print}

-- `MINFO`
pub record MouseInfo : Type 0 where
  pub position : Point
  pub left_held : Bool

-- `Button`
pub record Button : Type 0 where
  pub color : Argb
  pub text : List ℕ
  pub top_left : Point
  pub bottom_right : Point
  pub scale : ℕ
  pub pressed : Bool

-- `Button(Color, Text, TopLeft, BottomRight)`
abbrev pub button : Argb → List ℕ → Point → Point → Button
button color text top_left bottom_right = record {
  color = color;
  text = text;
  top_left = top_left;
  bottom_right = bottom_right;
  scale = 1;
  pressed = false;
}

-- The left button of the mouse is held over the button, its border not included.
unfoldable pub is_held : Button → MouseInfo → Bool
is_held b m =
    m.left_held
    && ltb_ℤ b.top_left.x m.position.x
    && ltb_ℤ b.top_left.y m.position.y
    && ltb_ℤ m.position.x b.bottom_right.x
    && ltb_ℤ m.position.y b.bottom_right.y

-- `IsToggled`
unfoldable pub is_toggled : Button → MouseInfo → Button × Bool
is_toggled b m = if is_held b m then (record b { pressed = not b.pressed }, true) else (b, false)

-- `IsPressed`
unfoldable pub is_pressed : Button → MouseInfo → Button × Bool
is_pressed b m = (record b { pressed = is_held b m }, is_held b m && not b.pressed)

-- `a / 2` on an `int32_t`, which is rounded towards 0.
abbrev pub half : ℤ → ℤ
half (pos n) = pos (n / 2)
half (negsuc n) = sub_ℕ 0 ((n + 1) / 2)

module _ (font : ℕ → ℕ) (size : ℕ) where
  -- `Button::Draw`
  pub draw_button : Button → Framebuffer → Framebuffer
  draw_button b fb =
      let drawn =
        if b.pressed
        then draw_sunken_rect fb b.top_left b.bottom_right b.color
        else draw_raised_rect fb b.top_left b.bottom_right b.color in
      let at =
        point (half (b.top_left.x +ℤ b.bottom_right.x) -ℤ pos (length b.text * 8 * b.scale / 2))
          (half (b.top_left.y +ℤ b.bottom_right.y) -ℤ pos (8 * b.scale)) in
      (print font size (length b.text) drawn b.text at b.scale (gray 60) b.color 0).0

-- `LabelAlign` and `LabelStyle`
pub data LabelAlign : Type 0 where
  negative center positive : LabelAlign

pub data LabelStyle : Type 0 where
  flat sunken raised : LabelStyle

-- `Label`
pub record Label : Type 0 where
  pub background : Argb
  pub foreground : Argb
  pub text : List ℕ
  pub top_left : Point
  pub bottom_right : Point
  pub horizontal_align : LabelAlign
  pub vertical_align : LabelAlign
  pub style : LabelStyle
  pub scale : ℕ

-- `Label(Text, TopLeft, BottomRight)`
abbrev pub label : List ℕ → Point → Point → Label
label text top_left bottom_right = record {
  background = gray 200;
  foreground = gray 60;
  text = text;
  top_left = top_left;
  bottom_right = bottom_right;
  horizontal_align = center;
  vertical_align = center;
  style = flat;
  scale = 1;
}

-- The three cases of `Style`.
abbrev pub label_box : LabelStyle → Framebuffer → Point → Point → Argb → Framebuffer
label_box flat fb top_left bottom_right color = draw_rect fb top_left bottom_right color
label_box sunken fb top_left bottom_right color = draw_sunken_rect fb top_left bottom_right color
label_box raised fb top_left bottom_right color = draw_raised_rect fb top_left bottom_right color

-- The three cases of `HorizontalAlign`.
abbrev pub text_left : LabelAlign → Label → ℤ
text_left negative l = l.top_left.x +ℤ pos (raised_width * l.scale)
text_left center l =
    half (l.top_left.x +ℤ l.bottom_right.x) -ℤ pos (length l.text * 8 * l.scale / 2)
text_left positive l =
    l.bottom_right.x -ℤ pos (raised_width * l.scale) -ℤ pos (length l.text * 8 * l.scale)

module _ (font : ℕ → ℕ) (size : ℕ) where
  -- `Label::Draw`
  pub draw_label : Label → Framebuffer → Framebuffer
  draw_label l fb =
      let drawn = label_box l.style fb l.top_left l.bottom_right l.background in
      let y = half (l.top_left.y +ℤ l.bottom_right.y) -ℤ pos (16 * l.scale / 2) in
      (print font size (length l.text) drawn l.text (point (text_left l.horizontal_align l) y)
        l.scale l.foreground l.background 0).0
