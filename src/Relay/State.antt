-- ===== src/Relay/State.antt =====
-- The fields of PacketRelay, the targets of ForwardTarget.py, and what a call meets outside: the
-- clock, the session store's answers and the sockets. What is written to a socket is kept in `sent`.
-- The model is of calls that do not overlap: each runs under the locks that the source takes.
use v3xctrl.Base.{ℕ, String, Bool, false, Option, none, some, List, [], ◌∷◌, ◌++◌, if◌then◌else◌}
use v3xctrl.Base.Dict.{Dict, get, put}
use v3xctrl.Relay.Types.{Address, address_eq}
use v3xctrl.Relay.Session.{Session}

pub record Mapping : Type 0 where
  pub targets : List Address
  pub timestamp : ℕ

-- The connection's socket, by a number, and `_alive`.
pub record TcpTarget : Type 0 where
  pub sock : ℕ
  pub alive : Bool

-- The packets that the relay writes: Error, PeerInfo, a forwarded payload and ConnectionTestAck.
pub data Packet : Type 0 where
  error_packet : String → Packet
  peer_info : String → ℕ → ℕ → Packet
  payload : List ℕ → Packet
  test_ack : Bool → Packet

pub data Sent : Type 0 where
  datagram : Address → Packet → Sent
  framed : ℕ → Packet → Sent

pub record Relay : Type 0 where
  pub ip : String
  pub port : ℕ
  pub timeout : ℕ
  pub mappings : Dict Address Mapping
  pub sessions : Dict String Session
  pub tcp_targets : Dict Address TcpTarget
  -- the value is the `ref` of a SpectatorEntry
  pub spectator_by_address : Dict Address ℕ
  pub next_ref : ℕ
  pub sent : List Sent

-- What one call meets: the clock, `store.exists`, `store.get_session_id_from_spectator_id`, and
-- whether a write to a TCP socket or to a UDP address raises no OSError.
pub record Env : Type 0 where
  pub now : ℕ
  pub exists : String → Bool
  pub session_of_spectator : String → Option String
  pub write_ok : ℕ → Bool
  pub udp_ok : Address → Bool

-- PacketRelay(store, sock, address, timeout)
unfoldable pub new_relay : String → ℕ → ℕ → Relay
new_relay ip port timeout = record {
  ip = ip;
  port = port;
  timeout = timeout;
  mappings = [];
  sessions = [];
  tcp_targets = [];
  spectator_by_address = [];
  next_ref = 0;
  sent = [];
}

unfoldable pub log_sent : Sent → Relay → Relay
log_sent s r = record r { sent = r.sent ++ (s ∷ []) }

-- UdpTarget.send: an OSError is swallowed.
unfoldable pub udp_send : Env → Address → Packet → Relay → Relay
unfolding log_sent
udp_send env addr p r = if env.udp_ok addr then log_sent (datagram addr p) r else r

-- TcpTarget.send: a failed write marks the target dead.
unfoldable pub tcp_send : Env → Address → TcpTarget → Packet → Relay → Relay
unfolding log_sent
tcp_send env addr t p r =
    if t.alive
    then if env.write_ok t.sock
      then log_sent (framed t.sock p) r
      else record r { tcp_targets = put addr (record t { alive = false }) r.tcp_targets }
    else r

-- `self._get_target(addr).send(data)`: the TCP target while it is alive, else a datagram.
unfoldable pub send_to : Env → Address → Packet → Relay → Relay
unfolding udp_send tcp_send
send_to env addr p r = elim (get addr r.tcp_targets) [
  | none ↦ udp_send env addr p r
  | some t ↦ if t.alive then tcp_send env addr t p r else udp_send env addr p r
]
