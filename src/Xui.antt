-- ===== src/Xui.antt =====
-- internal/xui: the data that the 3x-ui panel serves.
pub mod Models
pub mod Cache
pub mod Parse
pub mod Client
pub mod Dynamic
mod Tests
