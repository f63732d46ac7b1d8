-- ===== src/Control.antt =====
-- The control channel between viewer and streamer: src/v3xctrl_control.
pub mod Message
pub mod Receiver
pub mod Transmitter
pub mod Peer
pub mod Commands
pub mod Timing
mod Examples
