-- ===== src/Wii.antt =====
-- The wiimote daemon of wiid-tests: keys, the accelerometer, the LEDs, and the message callback.
pub mod Device
pub mod Input
pub mod Setup
pub mod Accel
pub mod Leds
pub mod Main
pub mod Callback
mod Tests
