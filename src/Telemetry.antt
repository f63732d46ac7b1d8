-- ===== src/Telemetry.antt =====
-- Telemetry from the streamer to the viewer: src/v3xctrl_telemetry and src/v3xctrl_ui/core. `Flags` is
-- dataclasses.py, `Context` TelemetryContext.py and `Parser` TelemetryParser.py; `Agreement` is about
-- the three together. `Battery` is INA.py and BatteryTelemetry.py, and `Sampler`
-- Telemetry.py of src/v3xctrl_control.
pub mod Flags
pub mod Context
pub mod Parser
pub mod Battery
pub mod Sampler
pub mod Agreement
mod Examples
