-- ===== src/Viewer/Frames/Pairing.antt =====
-- While timing is on, a frame stays with its own timestamps through the four deques.
use v3xctrl.Base.{nat_eq}
use v3xctrl.Viewer.Frames.Player.{Player}
