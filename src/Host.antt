-- ===== src/Host.antt =====
-- The host side of app/src/main/cpp/core without the sockets and the frame region.
pub mod Interp
pub mod Launcher
pub mod Pump
pub mod Guest
pub mod Bridge
pub mod Core
pub mod Render
pub mod Renderer
