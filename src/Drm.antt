-- ===== src/Drm.antt =====
-- The DRM server and its clients of drm-tests, which talk in lines of decimal numbers.
pub mod Text
pub mod Proto
pub mod Server
pub mod Client
pub mod Loop
mod Tests
