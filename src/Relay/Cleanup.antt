-- ===== src/Relay/Cleanup.antt =====
-- cleanup_expired_mappings of PacketRelay.py and its four steps.
use v3xctrl.Base.{
  ℕ, ◌+◌, String, Bool, true, false, not, ◌&&◌, ◌||◌, Option, none, some, List, [], ◌∷◌, ◌++◌, ltb,
  leb, ◌==◌, length, keep_if, all, any, if◌then◌else◌, nat_eq, string_eq,
}
use v3xctrl.Base.Dict.{Dict, values, get, has, put, pop}
use v3xctrl.Relay.Types.{Address, address_eq, Role, streamer, viewer}
use v3xctrl.Relay.Session.{
  Ports, Session, SpectatorEntry, get_addresses, role_ports, set_role_ports, discard_all,
}
use v3xctrl.Relay.State.{Mapping, Relay, TcpTarget}
use v3xctrl.Relay.Mappings.{pop_mappings, remove_spectator_from_mappings}
use v3xctrl.Relay.Register.{forget_addresses}

-- _cleanup_dead_tcp_targets
unfoldable pub cleanup_dead_tcp_targets : Relay → Relay
cleanup_dead_tcp_targets r = record r {
  tcp_targets = keep_if (λ p. p.1.alive || has p.0 r.mappings) r.tcp_targets;
}

-- `(now - mapping.timestamp) >= self.timeout`, or no mapping
unfoldable pub is_expired : ℕ → ℕ → Option Mapping → Bool
is_expired now timeout none = true
is_expired now timeout (some m) = leb (timeout + m.timestamp) now

unfoldable pub all_expired : ℕ → Ports → Relay → Bool
unfolding is_expired
all_expired now ports r =
    all (λ peer. is_expired now r.timeout (get peer.addr r.mappings)) (values ports)

abbrev pub no_ports : Ports → Bool
no_ports ports = length ports == 0

-- the two roles of the session that are to go
unfoldable pub role_expired : ℕ → Session → Role → Relay → Bool
unfolding all_expired
role_expired now s role r =
    not (leb now (r.timeout + s.last_announcement_at))
    && (not (no_ports (role_ports role s)) && all_expired now (role_ports role s) r)

unfoldable pub peer_addresses : Ports → List Address
peer_addresses [] = []
peer_addresses ((port_type, peer) ∷ ports) = peer.addr ∷ peer_addresses ports

-- the loop over `roles_to_remove`, for one role of one session
unfoldable pub remove_role : String → Role → Relay → Relay
remove_role sid role r = elim (get sid r.sessions) [
  | none ↦ r
  | some s ↦
      let gone = peer_addresses (role_ports role s) in
      record r {
        mappings = pop_mappings gone r.mappings;
        sessions =
            put sid (set_role_ports role [] (record s { addresses = discard_all gone s.addresses }))
              r.sessions;
      }
]

-- expired_roles_by_session: decided for all the sessions before any role goes
unfoldable pub expired_roles : ℕ → Dict String Session → Relay → List (String × Role)
unfolding role_expired
expired_roles now [] r = []
expired_roles now ((sid, s) ∷ sessions) r =
    (if role_expired now s streamer r then (sid, streamer) ∷ [] else [])
    ++ ((if role_expired now s viewer r then (sid, viewer) ∷ [] else [])
        ++ expired_roles now sessions r)

unfoldable pub remove_roles : List (String × Role) → Relay → Relay
unfolding remove_role
remove_roles [] r = r
remove_roles ((sid, role) ∷ rest) r = remove_roles rest (remove_role sid role r)

-- _cleanup_expired_roles
unfoldable pub cleanup_expired_roles : ℕ → Relay → Relay
unfolding expired_roles remove_roles
cleanup_expired_roles now r = remove_roles (expired_roles now r.sessions r) r

-- SPECTATOR_TIMEOUT, in microseconds
abbrev pub spectator_timeout : ℕ
spectator_timeout = 30_000_000

-- _spectator_has_active_tcp
unfoldable pub has_active_tcp : List Address → Dict Address TcpTarget → Bool
has_active_tcp addrs targets =
    any (λ a. elim (get a targets) [ none ↦ false | some t ↦ t.alive ]) addrs

-- Both roles of the session are empty.
unfoldable pub is_empty_session : Session → Bool
is_empty_session s = no_ports s.streamer_ports && no_ports s.viewer_ports

-- The spectators that stay, the session's addresses and the relay.
pub record Sweep : Type 0 where
  pub kept : List SpectatorEntry
  pub addresses : List Address
  pub relay : Relay

unfoldable pub sweep_one : ℕ → Session → SpectatorEntry → Sweep → Sweep
sweep_one now s e w =
    if ltb (spectator_timeout + e.last_announcement_at) now
    then if has_active_tcp (get_addresses e) w.relay.tcp_targets
      then record w { kept = record e { last_announcement_at = now } ∷ w.kept }
      else record w {
        addresses = discard_all (get_addresses e) w.addresses;
        relay =
            remove_spectator_from_mappings (get_addresses e) s
              (forget_addresses (get_addresses e) w.relay);
      }
    else record w { kept = e ∷ w.kept }

-- `for i in reversed(range(len(session.spectators)))`: the last spectator is first.
unfoldable pub sweep : ℕ → Session → List SpectatorEntry → Sweep → Sweep
unfolding sweep_one
sweep now s [] w = w
sweep now s (e ∷ es) w = sweep_one now s e (sweep now s es w)

unfoldable pub sweep_session : ℕ → String → Session → Relay → Relay
unfolding sweep
sweep_session now sid s r =
    let w = sweep now s s.spectators (record { kept = []; addresses = s.addresses; relay = r }) in
    record (w.relay) {
      sessions =
          put sid (record s { spectators = w.kept; addresses = w.addresses }) w.relay.sessions;
    }

unfoldable pub sweep_sessions : ℕ → Dict String Session → Relay → Relay
unfolding sweep_session
sweep_sessions now [] r = r
sweep_sessions now ((sid, s) ∷ sessions) r =
    sweep_sessions now sessions (if is_empty_session s then r else sweep_session now sid s r)

-- _cleanup_inactive_spectators
unfoldable pub cleanup_inactive_spectators : ℕ → Relay → Relay
unfolding sweep_sessions
cleanup_inactive_spectators now r = sweep_sessions now r.sessions r

-- the addresses of each spectator of a session that goes
unfoldable pub forget_spectators : Session → List SpectatorEntry → Relay → Relay
forget_spectators s [] r = r
forget_spectators s (e ∷ es) r =
    forget_spectators s es
      (remove_spectator_from_mappings (get_addresses e) s (forget_addresses (get_addresses e) r))

unfoldable pub remove_empty : Dict String Session → Relay → Relay
unfolding forget_spectators
remove_empty [] r = r
remove_empty ((sid, s) ∷ sessions) r =
    let r' = forget_spectators s s.spectators r in
    remove_empty sessions
      (if is_empty_session s then record r' { sessions = pop sid r'.sessions } else r)

-- _cleanup_empty_sessions
unfoldable pub cleanup_empty_sessions : Relay → Relay
unfolding remove_empty
cleanup_empty_sessions r = remove_empty r.sessions r

-- cleanup_expired_mappings
unfoldable pub cleanup_expired_mappings : ℕ → Relay → Relay
unfolding cleanup_dead_tcp_targets cleanup_expired_roles cleanup_inactive_spectators
    cleanup_empty_sessions
cleanup_expired_mappings now r =
    cleanup_empty_sessions
      (cleanup_inactive_spectators now (cleanup_expired_roles now (cleanup_dead_tcp_targets r)))
