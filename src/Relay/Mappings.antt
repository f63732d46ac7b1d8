-- ===== src/Relay/Mappings.antt =====
-- The forwarding table: _update_mappings, _setup_spectator_mappings,
-- _setup_all_spectator_mappings and _remove_spectator_from_mappings of PacketRelay.py.
use v3xctrl.Base.{
  ℕ, String, Bool, ◌&&◌, Option, none, some, List, [], ◌∷◌, ◌==◌, length, keep_if, map,
  if◌then◌else◌, nat_eq, string_eq,
}
use v3xctrl.Base.Dict.{Dict, keys, get, put, pop}
use v3xctrl.Base.Sets.{contains, add, union, set_eq, discard}
use v3xctrl.Relay.Types.{Address, address_eq, PortType, port_types, port_type_eq, streamer, viewer}
use v3xctrl.Relay.Session.{
  Ports, Session, SpectatorEntry, is_complete, get_addresses, role_ports, find_spectator_by_address,
}
use v3xctrl.Relay.State.{Mapping, Relay, Env}

-- _get_sids_for_address_unlocked
unfoldable pub sids_for_address : Address → Dict String Session → List String
sids_for_address addr sessions = keys (keep_if (λ p. contains addr p.1.addresses) sessions)

-- one round of `for port_type in PortType`, for a port type that both sides have
unfoldable pub add_pair : ℕ → Ports → Ports → PortType → Dict Address Mapping → Dict Address Mapping
add_pair now streamers viewers port_type new_mappings = elim (get port_type streamers) [
  | none ↦ new_mappings
  | some s ↦ elim (get port_type viewers) [
    | none ↦ new_mappings
    | some v ↦
        put v.addr (record { targets = s.addr ∷ []; timestamp = now })
          (put s.addr (record { targets = v.addr ∷ []; timestamp = now }) new_mappings)
  ]
]

unfoldable pub add_pairs :
    ℕ → Ports → Ports → List PortType → Dict Address Mapping → Dict Address Mapping
add_pairs now streamers viewers [] new_mappings = new_mappings
add_pairs now streamers viewers (port_type ∷ rest) new_mappings =
    add_pairs now streamers viewers rest (add_pair now streamers viewers port_type new_mappings)

-- `if existing and existing.targets == new_mapping.targets`
unfoldable pub keep_timestamp : Option Mapping → Mapping → Mapping
keep_timestamp none m = m
keep_timestamp (some old) m =
    if set_eq old.targets m.targets then record m { timestamp = old.timestamp } else m

unfoldable pub keep_timestamps : Dict Address Mapping → Dict Address Mapping → Dict Address Mapping
unfolding keep_timestamp
keep_timestamps mappings new_mappings =
    map (λ p. (p.0, keep_timestamp (get p.0 mappings) p.1)) new_mappings

-- the sessions that hold one of the addresses
unfoldable pub overwritten_sids : List Address → Dict String Session → List String → List String
unfolding sids_for_address
overwritten_sids [] sessions acc = acc
overwritten_sids (a ∷ as') sessions acc =
    overwritten_sids as' sessions (union acc (sids_for_address a sessions))

unfoldable pub pop_mappings : List Address → Dict Address Mapping → Dict Address Mapping
pop_mappings [] mappings = mappings
pop_mappings (a ∷ as') mappings = pop_mappings as' (pop a mappings)

-- mappings.update(new_mappings)
unfoldable pub put_mappings : Dict Address Mapping → Dict Address Mapping → Dict Address Mapping
put_mappings [] mappings = mappings
put_mappings ((a, m) ∷ new_mappings) mappings = put_mappings new_mappings (put a m mappings)

unfoldable pub delete_overwritten : String → List String → Dict String Session → Dict String Session
delete_overwritten own [] sessions = sessions
delete_overwritten own (sid ∷ sids) sessions =
    delete_overwritten own sids (if sid == own then sessions else pop sid sessions)

-- `len(ports) != len(PortType)` negated
abbrev pub has_all_ports : Ports → Bool
has_all_ports ports = length ports == length port_types

unfoldable pub new_mappings : ℕ → Session → Dict Address Mapping
unfolding add_pairs
new_mappings now s = add_pairs now (role_ports streamer s) (role_ports viewer s) port_types []

-- _update_mappings
unfoldable pub update_mappings : Env → Session → Relay → Relay
update_mappings env s r =
    if has_all_ports (role_ports streamer s) && has_all_ports (role_ports viewer s)
    then record r {
      mappings =
          put_mappings (keep_timestamps r.mappings (new_mappings env.now s))
            (pop_mappings s.addresses r.mappings);
      sessions = delete_overwritten s.id (overwritten_sids s.addresses r.sessions []) r.sessions;
    }
    else r

-- `existing_mapping` gets the target, or a mapping is made.
unfoldable pub add_target : Address → Option Mapping → ℕ → Mapping
add_target addr none now = record { targets = addr ∷ []; timestamp = now }
add_target addr (some m) now = record { targets = add addr m.targets; timestamp = now }

unfoldable pub map_spectator_port :
    ℕ → Ports → Ports → PortType → Dict Address Mapping → Dict Address Mapping
unfolding add_target
map_spectator_port now streamers ports port_type mappings = elim (get port_type streamers) [
  | none ↦ mappings
  | some s ↦ elim (get port_type ports) [
    | none ↦ mappings
    | some p ↦ put s.addr (add_target p.addr (get s.addr mappings) now) mappings
  ]
]

unfoldable pub map_spectator_ports :
    ℕ → Ports → Ports → List PortType → Dict Address Mapping → Dict Address Mapping
map_spectator_ports now streamers ports [] mappings = mappings
map_spectator_ports now streamers ports (port_type ∷ rest) mappings =
    map_spectator_ports now streamers ports rest
      (map_spectator_port now streamers ports port_type mappings)

-- _setup_spectator_mappings, from the entry that the address finds
unfoldable pub map_spectator : ℕ → Session → Option SpectatorEntry → Relay → Relay
unfolding map_spectator_ports
map_spectator now s none r = r
map_spectator now s (some e) r =
    if is_complete e && has_all_ports (role_ports streamer s)
    then record r {
      mappings = map_spectator_ports now (role_ports streamer s) e.ports port_types r.mappings;
    }
    else r

unfoldable pub setup_spectator_mappings : Env → Session → Address → Relay → Relay
unfolding map_spectator
setup_spectator_mappings env s addr r = map_spectator env.now s (find_spectator_by_address addr s) r

unfoldable pub setup_each_address : Env → Session → List Address → Relay → Relay
setup_each_address env s [] r = r
setup_each_address env s (a ∷ as') r =
    setup_each_address env s as' (setup_spectator_mappings env s a r)

unfoldable pub setup_spectators : Env → Session → List SpectatorEntry → Relay → Relay
setup_spectators env s [] r = r
setup_spectators env s (e ∷ es) r =
    setup_spectators env s es
      (if is_complete e then setup_each_address env s (get_addresses e) r else r)

-- _setup_all_spectator_mappings
unfoldable pub setup_all_spectator_mappings : Env → Session → Relay → Relay
unfolding setup_spectators
setup_all_spectator_mappings env s r = setup_spectators env s s.spectators r

-- `mapping.targets = mapping.targets - {spectator_addr}`; where it is not a target nothing changes.
unfoldable pub drop_target : Address → Address → Dict Address Mapping → Dict Address Mapping
drop_target spectator_addr streamer_addr mappings = elim (get streamer_addr mappings) [
  | none ↦ mappings
  | some m ↦
      if contains spectator_addr m.targets
      then put streamer_addr (record m { targets = discard spectator_addr m.targets }) mappings
      else mappings
]

unfoldable pub drop_from_peers : Address → Ports → Dict Address Mapping → Dict Address Mapping
unfolding drop_target
drop_from_peers spectator_addr [] mappings = mappings
drop_from_peers spectator_addr ((port_type, peer) ∷ ports) mappings =
    drop_from_peers spectator_addr ports (drop_target spectator_addr peer.addr mappings)

unfoldable pub drop_spectator : List Address → Ports → Dict Address Mapping → Dict Address Mapping
unfolding drop_from_peers
drop_spectator [] ports mappings = mappings
drop_spectator (a ∷ as') ports mappings =
    drop_spectator as' ports (drop_from_peers a ports mappings)

-- _remove_spectator_from_mappings
unfoldable pub remove_spectator_from_mappings : List Address → Session → Relay → Relay
unfolding drop_spectator
remove_spectator_from_mappings addrs s r = record r {
  mappings = drop_spectator addrs (role_ports streamer s) r.mappings;
}
