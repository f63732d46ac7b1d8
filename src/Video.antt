-- ===== src/Video.antt =====
-- The video path: the capture timestamps in SEI units, and the encoder's quantisation.
pub mod Sei
pub mod Injector
pub mod Qp
pub mod Timer
pub mod Window
pub mod Recording
mod Examples
