-- ===== src/Vehicle.antt =====
-- The vehicle's control program, src/v3xctrl_control/apps/streamer.py: from messages to servo pulses.
pub mod Pulse
pub mod App
mod Examples
