-- ===== src/Vehicle/App.antt =====
-- The handlers of streamer.py over the program's global state: the trim, the identifiers of the
-- commands received, the two PWM channels. What the handlers start is appended to a list.
pub mod Safety
pub mod Once
use v3xctrl.Base.{
  ℕ, ◌+◌, ◌-◌, ltb, String, Bool, true, false, not, Option, none, some, List, [], ◌∷◌, ◌++◌, ◌==◌,
  if◌then◌else◌, string_eq,
}
use v3xctrl.Base.Bytes.{ℤ, pos, negsuc}
use v3xctrl.Base.Sets.{contains, add}
use v3xctrl.Vehicle.Pulse.{
  Axis, Config, apply_expo, throttle_pulse, steering_pulse, steering_center,
}

-- The commands that command_handler knows, with their parameters, and any other.
pub data Command : Type 0 where
  service : String → String → Command
  recording : String → Command
  trim : String → Command
  shutdown restart unknown : Command

-- systemctl, the recording call of the executor, the saved trim, poweroff and reboot
pub data Effect : Type 0 where
  systemctl : String → String → Effect
  submit_recording : String → Effect
  save_trim : ℤ → Effect
  poweroff reboot : Effect

pub record Pwm : Type 0 where
  pub throttle : ℕ
  pub steering : ℕ
  pub enabled : Bool
  pub closed : Bool

pub record App : Type 0 where
  pub config : Config
  pub steering_trim : ℤ
  pub center : ℕ
  pub received_command_ids : List String
  -- what was started, with the command that asked for it
  pub effects : List (String × Effect)
  pub pwm : Pwm
  -- the timestamps of the Latency messages answered
  pub latencies : List ℕ

unfoldable pub set_pulses : ℕ → ℕ → App → App
set_pulses throttle steering a = record a {
  pwm = record (a.pwm) { throttle = throttle; steering = steering };
}

-- The module's code up to the client: both channels are set up.
unfoldable pub new_app : Config → ℤ → App
unfolding steering_center
new_app c t = record {
  config = c;
  steering_trim = t;
  center = steering_center c t;
  received_command_ids = [];
  effects = [];
  pwm = record {
    throttle = c.throttle_idle;
    steering = steering_center c t;
    enabled = true;
    closed = false;
  };
  latencies = [];
}

-- control_handler
unfoldable pub control_handler : (ℕ → ℕ → ℕ) → Bool → Axis → Axis → App → App
unfolding set_pulses apply_expo throttle_pulse steering_pulse
control_handler power connected throttle steering a =
    let c = a.config in
    if connected
    then set_pulses (throttle_pulse c (apply_expo power c.throttle_expo throttle))
        (steering_pulse c a.steering_trim (apply_expo power c.steering_expo steering)) a
    else set_pulses c.failsafe_throttle c.failsafe_steering a

unfoldable pub latency_handler : ℕ → App → App
latency_handler timestamp a = record a { latencies = a.latencies ++ (timestamp ∷ []) }

unfoldable pub start_effect : String → Effect → App → App
start_effect id e a = record a { effects = a.effects ++ ((id, e) ∷ []) }

-- steering_trim += step, or -= step
unfoldable pub stepped : Bool → ℤ → ℤ
stepped true (pos n) = pos (n + 5)
stepped true (negsuc n) = if ltb n 5 then pos (4 - n) else negsuc (n - 5)
stepped false (pos n) = if ltb n 5 then negsuc (4 - n) else pos (n - 5)
stepped false (negsuc n) = negsuc (n + 5)

unfoldable pub change_trim : String → ℤ → App → App
unfolding start_effect steering_center
change_trim id t a =
    start_effect id (save_trim t)
      (record a { steering_trim = t; center = steering_center a.config t })

-- The `match` of command_handler.
unfoldable pub execute : String → Command → App → App
unfolding start_effect change_trim stepped
execute id (service action name) a = start_effect id (systemctl action name) a
execute id (recording action) a = start_effect id (submit_recording action) a
execute id (trim action) a = change_trim id (stepped (action == "increase") a.steering_trim) a
execute id shutdown a = start_effect id poweroff a
execute id restart a = start_effect id reboot a
execute id unknown a = a

unfoldable pub command_handler : String → Command → App → App
unfolding execute
command_handler id command a =
    if contains id a.received_command_ids
    then a
    else execute id command (record a { received_command_ids = add id a.received_command_ids })

unfoldable pub disconnect_handler : App → App
unfolding set_pulses
disconnect_handler a = set_pulses a.config.throttle_idle a.center a

-- cleanup_pwm
unfoldable pub cleanup_pwm : App → App
unfolding set_pulses
cleanup_pwm a =
    let parked = set_pulses 0 0 (set_pulses a.config.throttle_idle a.center a) in
    record parked { pwm = record (parked.pwm) { enabled = false; closed = true } }

-- What the client calls while the program runs: whether it is connected is read at each Control.
pub data Event : Type 0 where
  controlled : Bool → Axis → Axis → Event
  pinged : ℕ → Event
  commanded : String → Command → Event
  disconnected : Event

unfoldable pub handle : (ℕ → ℕ → ℕ) → App → Event → App
unfolding control_handler latency_handler command_handler disconnect_handler
handle power a (controlled connected throttle steering) =
    control_handler power connected throttle steering a
handle power a (pinged timestamp) = latency_handler timestamp a
handle power a (commanded id command) = command_handler id command a
handle power a disconnected = disconnect_handler a

unfoldable pub handle_all : (ℕ → ℕ → ℕ) → App → List Event → App
handle_all power a [] = a
handle_all power a (e ∷ es) = handle_all power (handle power a e) es
