-- ===== src/Relay/Dispatch.antt =====
-- Datagrams that the relay has no use for.
use v3xctrl.Base.{◌≡◌, true, false, none, some, arith, ◌⊎◌, inl, inr}
use v3xctrl.Base.Bytes.{Bytes, starts_with}
use v3xctrl.Base.Dict.{get}
use v3xctrl.Relay.Types.{Address, address_eq}
use v3xctrl.Relay.State.{Relay, Env}
use v3xctrl.Relay.Register.{PeerAnnouncement, register_peer, update_spectator_heartbeat}
use v3xctrl.Relay.Forward.{forward_packet}
use v3xctrl.Relay.Server.{
  Wire, announcement, is_control, peer_announcement_prefix, handle_datagram, handle_slow_packet,
  handle_not_announcement, handle_announcement, handle_connection_test, answer_test, finish_forward,
}

-- Noise changes nothing: a datagram that is no readable control message (it begins with neither
-- prefix, or Message.from_bytes fails on it), from an address with no mapping that is no
-- spectator's, leaves the relay as it is and makes it send nothing.
pub handle_datagram-ignores :
    (env : Env) (wire : Wire) (d : Bytes) (addr : Address) (r : Relay)
    → (is_control d ≡ false) ⊎ (wire d ≡ none)
    → get addr r.mappings ≡ none
    → get addr r.spectator_by_address ≡ none
    → handle_datagram env wire d addr r ≡ r
unfolding handle_datagram handle_slow_packet handle_not_announcement handle_announcement
    handle_connection_test answer_test finish_forward forward_packet update_spectator_heartbeat
    is_control
handle_datagram-ignores env wire d addr r noise m s = elim noise [
  | inl plain ↦ ground arith
  | inr unreadable ↦ ground arith
]

-- An announcement that can be read registers its peer, also from an address with a mapping: it is
-- not forwarded to the mapping's targets.
pub handle_datagram-registers :
    (env : Env) (wire : Wire) (d : Bytes) (addr : Address) (r : Relay) (msg : PeerAnnouncement)
    → starts_with peer_announcement_prefix d ≡ true
    → wire d ≡ some (announcement msg)
    → handle_datagram env wire d addr r ≡ register_peer env msg addr r
unfolding handle_datagram handle_slow_packet handle_announcement is_control
handle_datagram-registers env wire d addr r msg p w = ground arith
