-- ===== src/Relay/Session.antt =====
-- PeerEntry, SpectatorEntry and Session of custom_types.py. A method returns the new object. The
-- clock is an argument, read once for a call. A spectator carries `ref`, the identity of the Python
-- object, since PacketRelay reaches one object through two dictionaries.
use v3xctrl.Base.{
  ℕ, String, Bool, not, ◌&&◌, Option, none, some, List, [], ◌∷◌, ◌++◌, ◌==◌, length, all, any,
  is_some, if◌then◌else◌, nat_eq, string_eq,
}
use v3xctrl.Base.Dict.{Dict, values, get, has, put}
use v3xctrl.Base.Sets.{contains, add, discard}
use v3xctrl.Relay.Types.{
  Address, Role, streamer, viewer, spectator, PortType, port_types, Transport, address_eq,
  port_type_eq,
}

pub record PeerEntry : Type 0 where
  pub addr : Address
  pub transport : Transport
  pub ts : ℕ

abbrev pub Ports : Type 0
Ports = Dict PortType PeerEntry

pub record SpectatorEntry : Type 0 where
  pub ref : ℕ
  pub ports : Ports
  pub created_at : ℕ
  pub last_announcement_at : ℕ

-- SpectatorEntry()
unfoldable pub new_spectator : ℕ → ℕ → SpectatorEntry
new_spectator ref now = record {
  ref = ref;
  ports = [];
  created_at = now;
  last_announcement_at = now;
}

-- `old_entry.addr if old_entry and old_entry.addr != addr else None`
unfoldable pub replaced_address : Option PeerEntry → Address → Option Address
replaced_address none addr = none
replaced_address (some old) addr = if old.addr == addr then none else some old.addr

unfoldable pub register_port :
    SpectatorEntry → PortType → Address → Transport → ℕ → SpectatorEntry × Bool × Option Address
register_port e port_type addr transport now =
    let old = get port_type e.ports in
    (
      record e {
        ports = put port_type (record { addr = addr; transport = transport; ts = now }) e.ports;
        last_announcement_at = now;
      },
      not (is_some old),
      replaced_address old addr,
    )

unfoldable pub is_complete : SpectatorEntry → Bool
is_complete e = length e.ports == 2

-- `{peer.addr for peer in ports.values()}`
unfoldable pub port_addresses : Ports → List Address
port_addresses [] = []
port_addresses ((port_type, peer) ∷ ports) = add peer.addr (port_addresses ports)

unfoldable pub get_addresses : SpectatorEntry → List Address
unfolding port_addresses
get_addresses e = port_addresses e.ports

pub record Session : Type 0 where
  pub id : String
  -- `roles`, whose keys are always STREAMER and VIEWER
  pub streamer_ports : Ports
  pub viewer_ports : Ports
  pub spectators : List SpectatorEntry
  pub addresses : List Address
  pub created_at : ℕ
  pub last_announcement_at : ℕ

-- Session(session_id)
unfoldable pub new_session : String → ℕ → Session
new_session sid now = record {
  id = sid;
  streamer_ports = [];
  viewer_ports = [];
  spectators = [];
  addresses = [];
  created_at = now;
  last_announcement_at = now;
}

-- roles.get(role, {})
abbrev pub role_ports : Role → Session → Ports
role_ports streamer s = s.streamer_ports
role_ports viewer s = s.viewer_ports
role_ports spectator s = []

-- roles[role] = ports
abbrev pub set_role_ports : Role → Ports → Session → Session
set_role_ports streamer ports s = record s { streamer_ports = ports }
set_role_ports viewer ports s = record s { viewer_ports = ports }
set_role_ports spectator ports s = s

-- _register_peer
unfoldable pub register_peer_entry :
    Role → PortType → Address → Transport → ℕ → Session → Session × Bool
register_peer_entry role port_type addr transport now s =
    let ports = role_ports role s in
    let s' =
      set_role_ports role
        (put port_type (record { addr = addr; transport = transport; ts = now }) ports) s in
    (
      record s' { addresses = add addr s.addresses; last_announcement_at = now },
      not (has port_type ports),
    )

-- `any(peer.addr[0] == ip for peer in spec.ports.values())`
unfoldable pub has_host : String → SpectatorEntry → Bool
has_host ip e = any (λ peer. peer.addr.host == ip) (values e.ports)

module _ {ℓ} {A : Type ℓ} (p : A → Bool) where
  -- the first element that passes, and the list with that element replaced or removed
  unfoldable pub find_first : List A → Option A
  find_first [] = none
  find_first (x ∷ xs) = if p x then some x else find_first xs

  unfoldable pub replace_first : A → List A → List A
  replace_first y [] = []
  replace_first y (x ∷ xs) = if p x then y ∷ xs else x ∷ replace_first y xs

  unfoldable pub remove_first : List A → List A
  remove_first [] = []
  remove_first (x ∷ xs) = if p x then xs else x ∷ remove_first xs

unfoldable pub discard_replaced : Option Address → List Address → List Address
discard_replaced none addresses = addresses
discard_replaced (some old) addresses = discard old addresses

-- _register_spectator; `fresh` is the identity of the object that it may create.
unfoldable pub register_spectator_entry :
    ℕ → PortType → Address → Transport → ℕ → Session → Session × Bool × Option Address
register_spectator_entry fresh port_type addr transport now s =
    elim (find_first (has_host addr.host) s.spectators) [
      | none ↦
          let (e, new_port, replaced) =
            register_port (new_spectator fresh now) port_type addr transport now in
          (
            record s {
              spectators = s.spectators ++ (e ∷ []);
              addresses = discard_replaced replaced (add addr s.addresses);
            },
            new_port,
            replaced,
          )
      | some found ↦
          let (e, new_port, replaced) = register_port found port_type addr transport now in
          (
            record s {
              spectators = replace_first (has_host addr.host) e s.spectators;
              addresses = discard_replaced replaced (add addr s.addresses);
            },
            new_port,
            replaced,
          )
    ]

-- register; every value of `Role` is handled, so the ValueError is out of reach.
unfoldable pub register :
    ℕ → Role → PortType → Address → Transport → ℕ → Session → Session × Bool × Option Address
unfolding register_peer_entry register_spectator_entry
register fresh spectator port_type addr transport now s =
    register_spectator_entry fresh port_type addr transport now s
register fresh role port_type addr transport now s =
    let (s', is_new) = register_peer_entry role port_type addr transport now s in (s', is_new, none)

-- `addr in spectator.get_addresses()`
unfoldable pub has_address : Address → SpectatorEntry → Bool
has_address addr e = contains addr (get_addresses e)

unfoldable pub discard_all : List Address → List Address → List Address
discard_all [] addresses = addresses
discard_all (a ∷ as') addresses = discard_all as' (discard a addresses)

unfoldable pub remove_spectator_by_address : Address → Session → Option (Session × List Address)
remove_spectator_by_address addr s = elim (find_first (has_address addr) s.spectators) [
  | none ↦ none
  | some e ↦ some (
    record s {
      spectators = remove_first (has_address addr) s.spectators;
      addresses = discard_all (get_addresses e) s.addresses;
    },
    get_addresses e,
  )
]

unfoldable pub find_spectator_by_address : Address → Session → Option SpectatorEntry
find_spectator_by_address addr s = find_first (has_address addr) s.spectators

unfoldable pub is_role_ready : Role → Session → Bool
is_role_ready role s = all (λ port_type. has port_type (role_ports role s)) port_types

unfoldable pub is_ready : Session → Bool
is_ready s = is_role_ready streamer s && is_role_ready viewer s
