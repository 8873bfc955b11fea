-- ===== src/Context.antt =====
-- context/: the window monitor.
pub mod Window
