-- ===== src/Viewer/Examples.antt =====
-- The viewer's components at concrete inputs.
use v3xctrl.Base.{
  Option, ℕ, not, ◌||◌, is_some, ◌≡◌, string_eq, refl, true, none, some, List, [], ◌∷◌,
}
use v3xctrl.Viewer.Calibrator
use v3xctrl.Viewer.Calibrator.{GamepadCalibrator, new_calibrator}
use v3xctrl.Viewer.Calibrator.Axes.{
  Action, begin, read, confirm, act, act_all, apart, act_all-axes_apart,
}
use v3xctrl.Base.Dict.{get}
use v3xctrl.Base.Sets.{contains, set_eq, subset}
use v3xctrl.Viewer.Frames.{or_else, Receiver, new_receiver, enable_timing}
use v3xctrl.Viewer.Frames.Player.{Entry, Player, Event, decoded, displayed, handle_all}
use v3xctrl.Viewer.Settings.{Fields, scalar, dict, end, field}
use v3xctrl.Base.{String, false, length, arith, ◌+◌, ◌≤◌, nat_eq, all}
use v3xctrl.Control.Commands.{Commands}
use v3xctrl.Control.Commands.Once.{calls, acknowledged, attempted, stopped}
use v3xctrl.Viewer.Coordinator.{Coordinator, send_command}
use v3xctrl.Viewer.Coordinator.Dues.{
  Step, processed, server_acted, step_all, step_errors, pending_of, count_owed,
}
use v3xctrl.Viewer.Coordinator.Answers.{submit_errors, send_command-answers}
use v3xctrl.Viewer.SettingsController
use v3xctrl.Viewer.SettingsController.{Settings, transport_of, session_id, update_settings}
use v3xctrl.Viewer.SettingsController.Network.{port_of, relay_link, update_settings-keeps_network}
use v3xctrl.Viewer.Inputs.{Input, Key, left, backspace, Event as InputEvent, key_down}
use v3xctrl.Viewer.Inputs.Editing
use v3xctrl.Viewer.Inputs.Editing.{Field, text_input, handle_all-cursor_pos}
use v3xctrl.Relay.Types.{udp}
use v3xctrl.Viewer.Setup
use v3xctrl.Viewer.Setup.{
  addresses, Answers, control_port_in_use, keep_alive, setup_ports, shutdown,
}
use v3xctrl.Viewer.Setup.Shutdown.{holds, setup_ports-shutdown}
use v3xctrl.Viewer.Gamepads
use v3xctrl.Viewer.Gamepads.{AxisConfig, Calibration, Fraction, read_axis}
use v3xctrl.Viewer.Gamepads.Active
use v3xctrl.Viewer.Gamepads.Active.{IsSound, AreKnown, handle_all-IsSound}
use v3xctrl.Viewer.Gamepads.Axes.{is_ordered, IsUnit, read_axis-IsUnit}

abbrev entry : ℕ → Entry ℕ
entry n = record { frame = n; decoded_at = 100; duration = 3; captured_at = 90 }

-- A receiver that shows the oldest frame first, with timing on before any frame comes.
abbrev smooth : Receiver ℕ
unfolding enable_timing new_receiver
smooth = enable_timing true (new_receiver 100 100)

abbrev idle_player : Player ℕ
idle_player = record { queue = []; shown = none }

abbrev events : List (Event ℕ)
events = decoded (entry 1) ∷ decoded (entry 2) ∷ displayed 110 ∷ []

-- A default of two keys with a dict under one, and a file that sets one key of that dict.
abbrev defaults : Fields
defaults =
    field "debug" (scalar 1)
      (field "ports" (dict (field "video" (scalar 16384) (field "control" (scalar 16386) end))) end)

abbrev loaded : Fields
loaded = field "ports" (dict (field "video" (scalar 5000) end)) end

-- The first axis is moved for the steering and let go of, and then the second for the throttle.
abbrev moves : List Action
moves =
    begin
    ∷ read 0 (20 ∷ 20 ∷ [])
    ∷ read 1 (60 ∷ 20 ∷ [])
    ∷ read 2 (60 ∷ 20 ∷ [])
    ∷ read 3 (60 ∷ 20 ∷ [])
    ∷ read 4 (0 ∷ 20 ∷ [])
    ∷ read 9 (0 ∷ 20 ∷ [])
    ∷ confirm
    ∷ read 10 (20 ∷ 20 ∷ [])
    ∷ read 11 (20 ∷ 20 ∷ [])
    ∷ read 14 (20 ∷ 20 ∷ [])
    ∷ read 15 (20 ∷ 20 ∷ [])
    ∷ read 16 (20 ∷ 20 ∷ [])
    ∷ read 17 (20 ∷ 20 ∷ [])
    ∷ read 18 (20 ∷ 20 ∷ [])
    ∷ read 19 (20 ∷ 20 ∷ [])
    ∷ read 20 (20 ∷ 20 ∷ [])
    ∷ read 21 (20 ∷ 20 ∷ [])
    ∷ read 22 (20 ∷ 20 ∷ [])
    ∷ read 23 (20 ∷ 20 ∷ [])
    ∷ confirm
    ∷ read 24 (20 ∷ 20 ∷ [])
    ∷ read 25 (90 ∷ 60 ∷ [])
    ∷ read 26 (90 ∷ 60 ∷ [])
    ∷ []

abbrev calibrated : GamepadCalibrator
calibrated = or_else (new_calibrator true) (act_all 1 1 moves (new_calibrator true))

or_else-some :
    (d : GamepadCalibrator) (o : Option GamepadCalibrator)
    → is_some o ≡ true
    → o ≡ some (or_else d o)
or_else-some d none h = cc
or_else-some d (some c) h = refl

-- The throttle is the second axis, though the first was moved further.
calibrated_axes : (calibrated.steering.axis ≡ some 0) × (calibrated.throttle.axis ≡ some 1)
unfolding act_all act new_calibrator Calibrator.update Calibrator.start
    Calibrator.resume_calibration contains
calibrated_axes = (refl, refl)

returns : is_some (act_all 1 1 moves (new_calibrator true)) ≡ true
unfolding act_all act new_calibrator Calibrator.update Calibrator.start
    Calibrator.resume_calibration contains
returns = refl

is_calibrated : act_all 1 1 moves (new_calibrator true) ≡ some calibrated
is_calibrated = or_else-some (new_calibrator true) (act_all 1 1 moves (new_calibrator true)) returns

act_all-axes_apart_example :
    (apart calibrated.steering.axis calibrated.throttle.axis ≡ true)
    × (apart calibrated.steering.axis calibrated.brake.axis ≡ true)
    × (not (is_some calibrated.throttle.axis) || is_some calibrated.steering.axis ≡ true)
    × (not (is_some calibrated.brake.axis) || is_some calibrated.steering.axis ≡ true)
act_all-axes_apart_example = act_all-axes_apart 1 1 true moves calibrated is_calibrated

abbrev commands : Commands
commands = record { pending = []; tasks = []; called = []; transmitted = [] }

abbrev coordinator : Coordinator
coordinator = record {
  network_controller = some (record {
    relay_spectator_mode = false;
    server = some commands;
    server_error = false;
    controls = [];
    latency_checks = 0;
  });
  callback_queue = [];
  ran = [];
  control_connected = true;
  changes = [];
}

abbrev steps : List Step
steps = server_acted (attempted "c1") ∷ server_acted (acknowledged "c1") ∷ processed ∷ []

send_command-answers_example :
    (let k' = step_all (send_command false (stopped ∷ []) "c1" coordinator) steps in
      let answers =
        calls "c1" k'.ran + calls "c1" k'.callback_queue + count_owed "c1" (pending_of k') in
      (1 ≤ answers)
      × (answers ≤ 2)
      × (answers ≤ 1 + submit_errors false (stopped ∷ []) "c1" + step_errors "c1" steps))
unfolding calls get
send_command-answers_example =
    send_command-answers false (stopped ∷ []) "c1" coordinator steps (tt, refl, refl) refl refl

abbrev relayed : String → Settings
relayed server = record {
  fullscreen = none;
  ports = some (("video", 16384) ∷ []);
  relay = some (record {
    enabled = some true;
    spectator_mode = none;
    id = some "abc";
    server = some server;
  });
  transport = none;
}

abbrev settings_controller : SettingsController.Controller
settings_controller = record {
  settings = relayed "relay:8888";
  old_settings = relayed "relay:8888";
  fullscreen = false;
  user_connected = true;
  pending_settings = none;
  can_restart = true;
  has_display = true;
  listeners = [];
  restarts = [];
  updates = [];
  displays = [];
  network_restart_complete = false;
}

abbrev fullscreen_settings : Settings
fullscreen_settings = record (relayed "relay:8888") { fullscreen = some true }

update_settings-keeps_network_example :
    (port_of "video" fullscreen_settings.ports ≡ port_of "video" (relayed "relay:8888").ports)
    × (transport_of fullscreen_settings ≡ transport_of (relayed "relay:8888"))
    × (relay_link fullscreen_settings ≡ relay_link (relayed "relay:8888"))
    × ((update_settings fullscreen_settings settings_controller).0.settings ≡ fullscreen_settings)
unfolding update_settings session_id set_eq subset contains all get
update_settings-keeps_network_example =
    update_settings-keeps_network settings_controller fullscreen_settings "video" refl refl refl

update_settings_other_server :
    (update_settings (relayed "other:8888") settings_controller).1 ≡ false
unfolding update_settings set_eq subset contains all get
update_settings_other_server = refl

abbrev field_text : Input
field_text = record {
  value = 104 ∷ 105 ∷ [];
  cursor_pos = 2;
  focused = true;
  hovered = false;
  has_on_change = true;
  changes = [];
}

abbrev press : Key → InputEvent
press k = key_down (record { key = k; ctrl = false; clipboard = none; unicode = none })

abbrev presses : List InputEvent
presses = press left ∷ press backspace ∷ []

abbrev text_field : Field
text_field = text_input (λ t. true) 32

handle_all-cursor_pos_example :
    (Editing.handle_all text_field presses field_text).cursor_pos
    ≤ length (Editing.handle_all text_field presses field_text).value
handle_all-cursor_pos_example = handle_all-cursor_pos text_field presses field_text (omega arith)

-- A viewer in relay mode whose control port is taken.
abbrev taken_port : Answers
taken_port = record {
  peer = addresses (record { host = "10.0.0.1"; port = 6666 });
  gst_available = true;
  pyav_available = true;
  receiver_raises = false;
  server = control_port_in_use;
}

abbrev relay_viewer : Setup.Controller
relay_viewer = record Setup.new_controller {
  relay_enable = true;
  relay_server = some "relay.v3xctrl.com";
  relay_id = some "s";
}

setup_ports-shutdown_example :
    holds keep_alive (shutdown (setup_ports udp "auto" taken_port relay_viewer).0)
    ≡ holds keep_alive (setup_ports udp "auto" taken_port relay_viewer).1
unfolding setup_ports
setup_ports-shutdown_example =
    setup_ports-shutdown udp "auto" taken_port relay_viewer keep_alive
      (record {
        receiver = refl;
        keep_alive = refl;
        server = refl;
        tcp_server = refl;
        tunnels = refl;
      })
      refl

-- A gamepad that is calibrated, found, and gone again.
abbrev centered_axis : AxisConfig
centered_axis = record {
  axis = some 0;
  invert = true;
  low = 100;
  high = 900;
  center = some 480;
  deadband = 10;
}

abbrev wheel : Calibration
wheel = record { axes = ("steering", centered_axis) ∷ []; buttons = none }

abbrev plugged : List Active.Event
plugged =
    Active.calibrated "g" wheel
    ∷ Active.refreshed (("g", 3) ∷ [])
    ∷ Active.selected "h"
    ∷ Active.refreshed []
    ∷ []

-- The one gamepad that is ever found.
abbrev IsWheel : String → ℕ → Type 0
IsWheel guid js = (guid ≡ "g") × (js ≡ 3)

only-IsWheel : AreKnown IsWheel (("g", 3) ∷ [])
unfolding get
only-IsWheel guid js h = ground (arith, string_eq.same_iff "g" guid)

handle_all-IsSound_example : IsSound IsWheel (Active.handle_all plugged Gamepads.new_controller)
unfolding get
handle_all-IsSound_example =
    handle_all-IsSound IsWheel plugged Gamepads.new_controller
      (only-IsWheel, ((λ guid js h. absurd (ground arith)), tt))
      (λ guid js h. absurd (ground arith))
      (record { together = refl; connected = refl; named = tt })

read_axis-IsUnit_example : (f : Fraction) × (read_axis true centered_axis 950 ≡ some f) × IsUnit f
unfolding is_ordered
read_axis-IsUnit_example = read_axis-IsUnit true centered_axis 950 refl (omega arith)
