-- ===== src/Viewer/Setup.antt =====
-- NetworkSetup.py and NetworkController.py: which components a connection starts, what is kept of
-- them, and what shutdown stops. The answers of the relay, of the receivers' libraries and of the
-- sockets are arguments.
pub mod Shutdown
use v3xctrl.Base.{
  ℕ, String, Bool, true, false, not, ◌&&◌, Option, none, some, List, [], ◌∷◌, ◌++◌, ◌==◌, string_eq,
  is_some, if◌then◌else◌,
}
use v3xctrl.Relay.Types.{Address, Transport, udp, tcp}

pub data Component : Type 0 where
  video_tunnel control_tunnel keep_alive tcp_server video_receiver server : Component

pub record RelayConfig : Type 0 where
  pub server : String
  pub port : ℕ
  pub id : String
  pub spectator_mode : Bool

pub data RelayError : Type 0 where
  registration_aborted registration_failed port_in_use network_error : RelayError

-- Peer.setup: the video address, one of the exceptions that setup_relay catches, or another.
pub data PeerAnswer : Type 0 where
  addresses : Address → PeerAnswer
  rejected : RelayError → PeerAnswer
  crashed : PeerAnswer

pub data ServerAnswer : Type 0 where
  started : ServerAnswer
  -- the OSErrors, and any other exception
  control_port_in_use server_error raised : ServerAnswer

pub data ReceiverKind : Type 0 where
  gst pyav : ReceiverKind

pub record Answers : Type 0 where
  pub peer : PeerAnswer
  pub gst_available : Bool
  pub pyav_available : Bool
  -- the receiver's constructor or its start raises
  pub receiver_raises : Bool
  pub server : ServerAnswer

-- NetworkSetupResult; of the components, whether they are there.
pub record Result : Type 0 where
  pub relay_error : Option RelayError
  pub has_receiver : Option Bool
  pub has_server : Option ServerAnswer
  pub has_keep_alive : Bool
  pub has_tcp_server : Bool
  pub has_tunnels : Bool
  -- the initial state of the server
  pub spectating : Bool
  -- the components started, in order
  pub started_components : List Component

abbrev pub empty_result : Result
empty_result = record {
  relay_error = none;
  has_receiver = none;
  has_server = none;
  has_keep_alive = false;
  has_tcp_server = false;
  has_tunnels = false;
  spectating = false;
  started_components = [];
}

unfoldable pub when : Bool → ReceiverKind → Option ReceiverKind
when b k = if b then some k else none

-- The receiver's class for the setting; `none` is the exception of the `match`.
unfoldable pub choose_receiver : String → Bool → Bool → Option ReceiverKind
unfolding when
choose_receiver kind has_gst has_pyav =
    if kind == "auto"
    then (if has_gst then some gst else when has_pyav pyav)
    else if kind == "gst"
    then when has_gst gst
    else if kind == "pyav"
    then when has_pyav pyav
    else none

unfoldable pub start_component : Component → Result → Result
start_component x r = record r { started_components = r.started_components ++ (x ∷ []) }

unfoldable pub setup_video_receiver : String → Answers → Result → Result
unfolding choose_receiver start_component
setup_video_receiver kind a r =
    if is_some (choose_receiver kind a.gst_available a.pyav_available) && not a.receiver_raises
    then record (start_component video_receiver r) { has_receiver = some true }
    else record r { has_receiver = some false }

-- The flag is false after an exception that setup_server does not catch.
unfoldable pub setup_server : Bool → Answers → Result → Result × Bool
unfolding start_component
setup_server spectator_mode a r = elim a.server [
  | raised ↦ (r, false)
  | started ↦ (
    record (start_component server r) { has_server = some started; spectating = spectator_mode },
    true,
  )
  | other ↦ (record r { has_server = some other }, true)
]

-- Steps 2 and 3, the same in all modes
unfoldable pub setup_rest : String → Bool → Answers → Result → Result × Bool
unfolding setup_video_receiver setup_server
setup_rest kind spectator_mode a r = setup_server spectator_mode a (setup_video_receiver kind a r)

unfoldable pub start_tunnels : Result → Result
unfolding start_component
start_tunnels r = record (start_component control_tunnel (start_component video_tunnel r)) {
  has_tunnels = true;
}

unfoldable pub start_keep_alive : Result → Result
unfolding start_component
start_keep_alive r = record (start_component keep_alive r) { has_keep_alive = true }

unfoldable pub start_tcp_server : Result → Result
unfolding start_component
start_tcp_server r = record (start_component tcp_server r) { has_tcp_server = true }

-- What follows the answer that setup_relay gets
unfoldable pub follow_answer : String → RelayConfig → Answers → PeerAnswer → Result × Bool
unfolding setup_rest start_keep_alive
follow_answer kind relay a crashed = (empty_result, false)
follow_answer kind relay a (rejected e) = (record empty_result { relay_error = some e }, true)
follow_answer kind relay a (addresses video) =
    setup_rest kind relay.spectator_mode a (start_keep_alive empty_result)

-- The result, and whether the call returned it.
unfoldable pub orchestrate_setup : Transport → String → Option RelayConfig → Answers → Result × Bool
unfolding setup_rest follow_answer start_tunnels start_tcp_server
orchestrate_setup tcp kind (some relay) a =
    setup_rest kind relay.spectator_mode a (start_tunnels empty_result)
orchestrate_setup tcp kind none a = setup_rest kind false a (start_tcp_server empty_result)
orchestrate_setup udp kind (some relay) a = follow_answer kind relay a a.peer
orchestrate_setup udp kind none a = setup_rest kind false a empty_result

-- NetworkController, as far as the connection goes
pub record Controller : Type 0 where
  pub relay_enable : Bool
  pub relay_server : Option String
  pub relay_port : ℕ
  pub relay_id : Option String
  pub relay_spectator_mode : Bool
  pub relay_status : Option RelayError
  pub has_receiver : Bool
  pub has_keep_alive : Bool
  pub has_server : Bool
  pub server_error : Option ServerAnswer
  pub has_tcp_server : Bool
  pub has_tunnels : Bool

-- What the relay's settings hold.
pub record RelaySettings : Type 0 where
  pub enabled : Bool
  pub server : Option String
  pub id : Option String
  pub spectator_mode : Bool

abbrev pub new_controller : Controller
new_controller = record {
  relay_enable = false;
  relay_server = none;
  relay_port = 8888;
  relay_id = none;
  relay_spectator_mode = false;
  relay_status = none;
  has_receiver = false;
  has_keep_alive = false;
  has_server = false;
  server_error = none;
  has_tcp_server = false;
  has_tunnels = false;
}

-- The truth of a text that may be missing.
unfoldable pub is_given : Option String → Bool
is_given none = false
is_given (some text) = not (text == "")

-- setup_relay. `split` is the text's rsplit at its last colon with the port as int reads it, if there
-- is a colon.
unfoldable pub setup_relay :
    (String → Option (String × Option ℕ)) → String → String → Controller → Controller
setup_relay split relay_server relay_id c = elim (split relay_server) [
  | none ↦ record c {
    relay_enable = true;
    relay_id = some relay_id;
    relay_server = some relay_server;
  }
  | some (host, none) ↦ record c {
    relay_enable = true;
    relay_id = some relay_id;
    relay_server = some host;
  }
  | some (host, some port) ↦ record c {
    relay_enable = true;
    relay_id = some relay_id;
    relay_server = some host;
    relay_port = port;
  }
]

unfoldable pub or_text : Option String → String
or_text none = ""
or_text (some text) = text

-- _setup_relay_if_enabled, at the end of __init__
unfoldable pub setup_relay_if_enabled :
    (String → Option (String × Option ℕ)) → RelaySettings → Controller → Controller
unfolding is_given setup_relay or_text
setup_relay_if_enabled split s c =
    if s.enabled
    then (let moded = record c { relay_spectator_mode = s.spectator_mode } in
        if is_given s.server && is_given s.id
        then setup_relay split (or_text s.server) (or_text s.id) moded
        else moded)
    else c

-- The relay_config that _apply_setup_result passes on
unfoldable pub relay_config : Controller → Option RelayConfig
unfolding is_given or_text
relay_config c =
    if c.relay_enable && (is_given c.relay_server && is_given c.relay_id)
    then some (record {
      server = or_text c.relay_server;
      port = c.relay_port;
      id = or_text c.relay_id;
      spectator_mode = c.relay_spectator_mode;
    })
    else none

unfoldable pub is_true : Option Bool → Bool
is_true (some true) = true
is_true _ = false

unfoldable pub keep_server : Option ServerAnswer → Controller → Controller
keep_server none c = c
keep_server (some started) c = record c { has_server = true }
keep_server (some error) c = record c { server_error = some error }

-- _apply_setup_result, after orchestrate_setup
unfoldable pub apply_result : Result → Controller → Controller
unfolding is_true keep_server
apply_result r c = keep_server r.has_server (record c {
  has_tcp_server = if r.has_tcp_server then true else c.has_tcp_server;
  has_tunnels = if r.has_tunnels then true else c.has_tunnels;
  relay_status = elim r.relay_error [ none ↦ c.relay_status | some e ↦ some e ];
  has_keep_alive = if r.has_keep_alive then true else c.has_keep_alive;
  has_receiver = if is_true r.has_receiver then true else c.has_receiver;
})

-- _setup_ports_task; after an exception the thread ends and the controller is as it was. With it, what
-- was started, and whether the setup returned.
unfoldable pub setup_ports :
    Transport → String → Answers → Controller → Controller × List Component × Bool
unfolding orchestrate_setup relay_config apply_result
setup_ports transport kind a c =
    let (r, returned) = orchestrate_setup transport kind (relay_config c) a in
    (if returned then apply_result r c else c, r.started_components, returned)

unfoldable pub stops : Bool → List Component → List Component
stops b xs = if b then xs else []

-- shutdown, once the setup's thread has ended: what is stopped, in order
unfoldable pub shutdown : Controller → List Component
unfolding stops
shutdown c =
    stops c.has_server (server ∷ [])
    ++ (stops c.has_keep_alive (keep_alive ∷ [])
        ++ (stops c.has_receiver (video_receiver ∷ [])
            ++ (stops c.has_tcp_server (tcp_server ∷ [])
                ++ stops c.has_tunnels (video_tunnel ∷ control_tunnel ∷ []))))
