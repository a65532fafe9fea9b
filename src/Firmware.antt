-- ===== src/Firmware.antt =====
-- The program of the robot, teensy/usb_rawhid/example.c.
pub mod Trees
pub mod Sensors
pub mod Robot
pub mod Drive
pub mod Program
pub mod Callbacks
pub mod Events
pub mod Steps
pub mod Runs
pub mod Edge
pub mod Main
pub mod Tests
