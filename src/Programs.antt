-- ===== src/Programs.antt =====
-- src/Programs: the kernel's programs.
pub mod Tetris
pub mod Calculator
pub mod Tty
pub mod StartMenu
pub mod SystemMenu
pub mod Topbar
pub mod Terminal
pub mod Desktop
