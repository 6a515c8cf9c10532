-- ===== src/Input.antt =====
-- src/Input: the keyboard and the mouse.
pub mod KeyBoard
pub mod Mouse
