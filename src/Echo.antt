-- ===== src/Echo.antt =====
-- The TCP echo servers of tcp/c/echo.
pub mod Line
pub mod Host
pub mod Poll
pub mod Select
mod Tests
