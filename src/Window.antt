-- ===== src/Window.antt =====
-- src/x11.rs: what the window system says of the focused window.
mod Property
pub mod WmClass
unfoldable pub use Property.*
