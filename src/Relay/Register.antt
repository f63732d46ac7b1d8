-- ===== src/Relay/Register.antt =====
-- register_peer, register_tcp_peer, _register_spectator, update_spectator_heartbeat,
-- _remove_spectator_from_all_sessions and the PeerInfo sends of PacketRelay.py.
use v3xctrl.Base.{
  ℕ, suc, String, Option, none, some, List, [], ◌∷◌, ◌==◌, map, if◌then◌else◌, nat_eq, string_eq,
}
use v3xctrl.Base.Dict.{Dict, get, has, put, pop}
use v3xctrl.Relay.Types.{
  Address, address_eq, Role, streamer, viewer, spectator, PortType, Transport, udp, tcp, parse_role,
  parse_port_type,
}
use v3xctrl.Relay.Session.{
  Ports, Session, SpectatorEntry, new_session, register, is_ready, remove_spectator_by_address,
  find_spectator_by_address,
}
use v3xctrl.Relay.State.{Relay, Env, TcpTarget, error_packet, peer_info, send_to}
use v3xctrl.Relay.Mappings.{
  update_mappings, setup_spectator_mappings, setup_all_spectator_mappings,
  remove_spectator_from_mappings,
}

-- message/PeerAnnouncement.py
pub record PeerAnnouncement : Type 0 where
  pub role : String
  pub id : String
  pub port_type : String

-- `self.spectator_by_address.pop(addr, None)` for each address
unfoldable pub forget_addresses : List Address → Relay → Relay
forget_addresses [] r = r
forget_addresses (a ∷ as') r =
    forget_addresses as' (record r { spectator_by_address = pop a r.spectator_by_address })

-- the first session from which the address removes a spectator
unfoldable pub find_removal :
    Address → Dict String Session → Option (String × Session × List Address)
find_removal addr [] = none
find_removal addr ((sid, s) ∷ sessions) = elim (remove_spectator_by_address addr s) [
  | none ↦ find_removal addr sessions
  | some (s', removed) ↦ some (sid, s', removed)
]

-- _remove_spectator_from_all_sessions. The addresses removed are never the empty set.
unfoldable pub remove_spectator_from_all_sessions : Address → Relay → Relay
unfolding forget_addresses find_removal
remove_spectator_from_all_sessions addr r = elim (find_removal addr r.sessions) [
  | none ↦ r
  | some (sid, s', removed) ↦
      remove_spectator_from_mappings removed s'
        (forget_addresses removed (record r { sessions = put sid s' r.sessions }))
]

unfoldable pub send_to_ports : Env → Ports → Relay → Relay
send_to_ports env [] r = r
send_to_ports env ((port_type, peer) ∷ ports) r =
    send_to_ports env ports (send_to env peer.addr (peer_info r.ip r.port r.port) r)

-- _send_peer_info
unfoldable pub send_peer_info : Env → Session → Relay → Relay
unfolding send_to_ports
send_peer_info env s r = send_to_ports env s.viewer_ports (send_to_ports env s.streamer_ports r)

-- _send_peer_info_to_spectator
unfoldable pub send_peer_info_to_spectator : Env → Address → Relay → Relay
send_peer_info_to_spectator env addr r = send_to env addr (peer_info r.ip r.port r.port) r

-- _send_peer_info_to_all_spectators
unfoldable pub send_peer_info_to_spectators : Env → List SpectatorEntry → Relay → Relay
unfolding send_to_ports
send_peer_info_to_spectators env [] r = r
send_peer_info_to_spectators env (e ∷ es) r =
    send_peer_info_to_spectators env es (send_to_ports env e.ports r)

-- `Error(str(403))`
unfoldable pub send_unauthorized : Env → Address → Relay → Relay
send_unauthorized env addr r = send_to env addr (error_packet "403") r

-- the `match role`: the session that the announcement is for, or a refusal
unfoldable pub resolve_session : Env → Role → String → Address → Relay → Relay × Option String
unfolding send_unauthorized remove_spectator_from_all_sessions
resolve_session env spectator sid addr r = elim (env.session_of_spectator sid) [
  | none ↦ (send_unauthorized env addr r, none)
  | some actual ↦ if actual == "" then (send_unauthorized env addr r, none) else (r, some actual)
]
resolve_session env role sid addr r =
    let r' = remove_spectator_from_all_sessions addr r in
    if env.exists sid then (r', some sid) else (send_unauthorized env addr r', none)

unfoldable pub drop_replaced : Option Address → Session → Relay → Relay
drop_replaced none s r = r
drop_replaced (some old) s r =
    remove_spectator_from_mappings (old ∷ []) s
      (record r { spectator_by_address = pop old r.spectator_by_address })

unfoldable pub index_spectator : Address → Option SpectatorEntry → Relay → Relay
index_spectator addr none r = r
index_spectator addr (some e) r = record r {
  spectator_by_address = put addr e.ref r.spectator_by_address;
}

-- _register_spectator
unfoldable pub register_spectator : Env → Session → Address → Option Address → Relay → Relay
unfolding drop_replaced index_spectator send_peer_info_to_spectator
register_spectator env s addr replaced r =
    let r' = index_spectator addr (find_spectator_by_address addr s) (drop_replaced replaced s r) in
    if is_ready s
    then send_peer_info_to_spectator env addr (setup_spectator_mappings env s addr r')
    else r'

-- what follows `if session.is_ready()`
unfoldable pub announce_ready : Env → Session → Relay → Relay
unfolding send_peer_info send_peer_info_to_spectators
announce_ready env s r =
    if is_ready s
    then send_peer_info_to_spectators env s.spectators
        (setup_all_spectator_mappings env s (send_peer_info env s (update_mappings env s r)))
    else r

-- `self.sessions.setdefault(sid, Session(sid))`
unfoldable pub session_or_new : ℕ → String → Relay → Session
session_or_new now sid r = elim (get sid r.sessions) [ none ↦ new_session sid now | some s ↦ s ]

abbrev pub transport_of : Address → Relay → Transport
transport_of addr r = if has addr r.tcp_targets then tcp else udp

unfoldable pub finish_registration : Env → Role → Session → Address → Option Address → Relay → Relay
finish_registration env spectator s addr replaced r = register_spectator env s addr replaced r
finish_registration env role s addr replaced r = announce_ready env s r

-- from `session = self.sessions.setdefault(...)` on
unfoldable pub join_session : Env → Role → PortType → String → Address → Relay → Relay
unfolding session_or_new finish_registration
join_session env role port_type sid addr r =
    let (s, is_new, replaced) =
      register r.next_ref role port_type addr (transport_of addr r) env.now
        (session_or_new env.now sid r) in
    finish_registration env role s addr replaced
      (record r { sessions = put sid s r.sessions; next_ref = suc r.next_ref })

unfoldable pub register_role : Env → Role → PortType → String → Address → Relay → Relay
unfolding resolve_session join_session
register_role env role port_type sid addr r =
    let (r', found) = resolve_session env role sid addr r in
    elim found [ none ↦ r' | some actual ↦ join_session env role port_type actual addr r' ]

-- register_peer. A role or port type of another name is logged and ignored.
unfoldable pub register_peer : Env → PeerAnnouncement → Address → Relay → Relay
unfolding register_role
register_peer env msg addr r = elim (parse_role msg.role) [
  | none ↦ r
  | some role ↦ elim (parse_port_type msg.port_type) [
    | none ↦ r
    | some port_type ↦ register_role env role port_type msg.id addr r
  ]
]

-- register_tcp_peer
unfoldable pub register_tcp_peer : Env → PeerAnnouncement → Address → TcpTarget → Relay → Relay
unfolding register_peer
register_tcp_peer env msg addr target r =
    register_peer env msg addr (record r { tcp_targets = put addr target r.tcp_targets })

unfoldable pub beat_spectators : ℕ → ℕ → List SpectatorEntry → List SpectatorEntry
beat_spectators ref now es =
    map (λ e. if e.ref == ref then record e { last_announcement_at = now } else e) es

-- update_spectator_heartbeat: the object is the one that the session holds too.
unfoldable pub update_spectator_heartbeat : Env → Address → Relay → Relay
unfolding beat_spectators
update_spectator_heartbeat env addr r = elim (get addr r.spectator_by_address) [
  | none ↦ r
  | some ref ↦ record r {
    sessions =
        map (λ p. (p.0, record p.1 { spectators = beat_spectators ref env.now p.1.spectators }))
          r.sessions;
  }
]

-- get_session_peers
unfoldable pub get_session_peers : String → Relay → Dict Role Ports
get_session_peers sid r = elim (get sid r.sessions) [
  | none ↦ []
  | some s ↦ (streamer, s.streamer_ports) ∷ (viewer, s.viewer_ports) ∷ []
]
