-- ===== src/Control/Message.antt =====
-- message/*.py: the message classes, with what the modelled code reads of them. Time is counted in
-- one unit throughout, such as a microsecond.
use v3xctrl.Base.{ℕ, String, Bool, true, false}

pub data Body : Type 0 where
  ack heartbeat syn syn_ack control telemetry latency peer_announcement peer_info : Body
  connection_test connection_test_ack error_message : Body
  command command_ack : String → Body

pub record Message : Type 0 where
  pub body : Body
  pub timestamp : ℕ

-- isinstance(message, PeerInfo)
unfoldable pub is_peer_info : Body → Bool
is_peer_info peer_info = true
is_peer_info _ = false

-- isinstance(message, Command | CommandAck | Latency)
unfoldable pub is_exempt : Body → Bool
is_exempt (command i) = true
is_exempt (command_ack i) = true
is_exempt latency = true
is_exempt _ = false

-- isinstance(message, Syn | Ack)
unfoldable pub is_handshake : Body → Bool
is_handshake syn = true
is_handshake ack = true
is_handshake _ = false
