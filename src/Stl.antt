-- ===== src/Stl.antt =====
-- src/STL: the kernel's own standard library.
pub mod Math
pub mod Cstr
pub mod Point
pub mod Clamp
pub mod Str
pub mod Memory
pub mod Framebuffer
mod Tests
pub mod Gui
