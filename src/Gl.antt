-- ===== src/Gl.antt =====
-- The drawing programs of drm-tests, drm_gl_test1a.c to drm_gl_test3.c.
pub mod Flip
pub mod Setup
pub mod Single
pub mod Double
pub mod Surface
pub mod Flips
mod Tests
