-- ===== src/Viewer.antt =====
-- The viewer: src/v3xctrl_ui. `Frames` is network/video/Receiver.py, `Settings` core/Settings.py,
-- `Calibrator` menu/calibration/GamepadCalibrator.py, `Coordinator` network/NetworkCoordinator.py,
-- `SettingsController` core/controllers/SettingsController.py, `Inputs` the text fields of menu/input,
-- `Setup` network/NetworkSetup.py with NetworkController.py, and `Gamepads` the GamepadController.py of
-- core/controllers/input.
pub mod Frames
pub mod Settings
pub mod Coordinator
pub mod Gamepads
pub mod Setup
pub mod Inputs
pub mod SettingsController
pub mod Calibrator
mod Examples
