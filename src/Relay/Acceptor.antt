-- ===== src/Relay/Acceptor.antt =====
-- TCPAcceptor.py: one connection, from its handshake to its close. `envs n` is what the n-th message
-- meets; the relay is not stopped meanwhile. `none` is a lack of fuel.
pub mod Streams
use v3xctrl.Base.{
  ℕ, zero, suc, ◌+◌, Bool, true, false, ◌&&◌, ◌||◌, not, Option, none, some, List, [], ◌∷◌,
  if◌then◌else◌,
}
use v3xctrl.Base.Bytes.{Bytes}
use v3xctrl.Tcp.Framing.{Segments, recv, recv_message}
use v3xctrl.Relay.Types.{
  Address, Role, streamer, viewer, spectator, PortType, video, control, parse_role, parse_port_type,
}
use v3xctrl.Relay.State.{Relay, Env}
use v3xctrl.Relay.Register.{register_tcp_peer}
use v3xctrl.Relay.Forward.{Forwarded, unmapped, deferred, raised, forward_packet}
use v3xctrl.Relay.Server.{
  Wire, Content, announcement, connection_test, other_message, mark_dead, send_all_deferred,
}

-- `role == SPECTATOR or (port_type == VIDEO and role != STREAMER)`: the peer only receives.
unfoldable pub is_monitored : Role → PortType → Bool
is_monitored spectator pt = true
is_monitored streamer pt = false
is_monitored viewer video = true
is_monitored viewer control = false

-- _read_and_forward_loop; it ends at a close, and at an OSError of forward_packet.
unfoldable pub read_and_forward : ℕ → (ℕ → Env) → ℕ → Address → Segments → Relay → Option Relay
unfolding send_all_deferred
read_and_forward zero envs n addr segs r = none
read_and_forward (suc fuel) envs n addr segs r =
    let (message, segs') = recv_message segs in
    elim message [
      | none ↦ some r
      | some bytes ↦
          let (r', forwarded) = forward_packet (envs n) bytes addr r in
          elim forwarded [
            | raised ↦ some r'
            | unmapped ↦ read_and_forward fuel envs (suc n) addr segs' r'
            | deferred ts ↦
                read_and_forward fuel envs (suc n) addr segs'
                  (send_all_deferred (envs n) bytes ts r')
          ]
    ]

-- _monitor_disconnect: bytes are read one by one and thrown away, until the close.
unfoldable pub monitor_disconnect : ℕ → Segments → Relay → Option Relay
unfolding recv
monitor_disconnect zero segs r = none
monitor_disconnect (suc fuel) segs r =
    let (bytes, segs') = recv 1 segs in
    elim bytes [ [] ↦ some r | b ∷ bs ↦ monitor_disconnect fuel segs' r ]

-- `target.close()` of the `finally`
abbrev pub close : ℕ → Option Relay → Option Relay
close sock none = none
close sock (some r) = some (mark_dead sock r)

-- from the announcement on; an unknown port type or role is a ValueError, which is logged
unfoldable pub serve :
    ℕ → (ℕ → Env) → ℕ → Address → Segments → Option Content → Relay → Option Relay
unfolding read_and_forward monitor_disconnect is_monitored
serve fuel envs sock addr segs (some (announcement msg)) r = elim (parse_port_type msg.port_type) [
  | none ↦ some r
  | some pt ↦
      let r' = register_tcp_peer (envs 0) msg addr (record { sock = sock; alive = true }) r in
      elim (parse_role msg.role) [
        | none ↦ some r'
        | some role ↦
            if is_monitored role pt
            then monitor_disconnect fuel segs r'
            else read_and_forward fuel envs 1 addr segs r'
      ]
]
serve fuel envs sock addr segs (some (connection_test id is_spectator)) r = some r
serve fuel envs sock addr segs (some other_message) r = some r
serve fuel envs sock addr segs none r = some r

-- _handle_connection
unfoldable pub handle_connection :
    ℕ → (ℕ → Env) → Wire → ℕ → Address → Segments → Relay → Option Relay
unfolding serve
handle_connection fuel envs wire sock addr segs r =
    let (message, segs') = recv_message segs in
    close sock
      (elim message [ none ↦ some r | some bytes ↦ serve fuel envs sock addr segs' (wire bytes) r ])
