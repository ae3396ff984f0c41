-- ===== src/Gst.antt =====
-- The sink plugins of gst/gst-simple and of gst/gst-drm.
pub mod Handshake
pub mod Drmsink
pub mod Planesink
