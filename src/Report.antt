-- ===== src/Report.antt =====
-- What the loaders print.
pub mod Timestamp
pub mod Layout
pub mod Wire
pub mod Print
pub mod Records
pub mod Maps
pub mod Delivery
pub mod Execve
