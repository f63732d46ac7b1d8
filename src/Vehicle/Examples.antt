-- ===== src/Vehicle/Examples.antt =====
-- A vehicle that is driven, commanded twice and disconnected.
use v3xctrl.Base.{ℕ, ◌*◌, ◌/◌, ◌≤◌, ◌≡◌, refl, true, false, List, [], ◌∷◌, arith, string_eq}
use v3xctrl.Base.Bytes.{pos}
use v3xctrl.Base.Sets.{contains}
use v3xctrl.Vehicle.Pulse.{Axis, Config}
use v3xctrl.Vehicle.Pulse.Bounds.{IsSensible}
use v3xctrl.Vehicle.App.{new_app, Event, controlled, commanded, trim, handle_all}
use v3xctrl.Vehicle.App.Safety.{handle_all-pulses}
use v3xctrl.Vehicle.App.Once.{count, is_known, all_known, arrives, handle_all-once}

abbrev config : Config
config = record {
  throttle_min = 1000;
  throttle_idle = 1500;
  throttle_max = 2000;
  steering_min = 1000;
  steering_max = 2000;
  steering_invert = false;
  steering_scale = 100;
  forward_scale = 50;
  reverse_scale = 50;
  forward_boost = 20;
  reverse_boost = 20;
  throttle_expo = 0;
  steering_expo = 30;
  failsafe_throttle = 1500;
  failsafe_steering = 1500;
}

config-IsSensible : IsSensible config
config-IsSensible = record {
  steering = omega arith;
  steering_failsafe = (omega arith, omega arith);
  throttle_failsafe = (omega arith, omega arith);
  backward = omega arith;
  forward = omega arith;
}

abbrev right : Axis
right = record { negative = false; magnitude = 800000 }

abbrev drive : List Event
drive =
    controlled true right right
    ∷ commanded "c1" (trim "increase")
    ∷ commanded "c1" (trim "increase")
    ∷ controlled true right right
    ∷ []

abbrev power : ℕ → ℕ → ℕ
power expo magnitude = magnitude * magnitude / 1000000

handle_all-pulses_example :
    (let p = (handle_all power (new_app config (pos 10)) drive).pwm in
      (1000 ≤ p.throttle) × (p.throttle ≤ 2000) × (1000 ≤ p.steering) × (p.steering ≤ 2000))
handle_all-pulses_example = handle_all-pulses config (pos 10) power drive config-IsSensible

handle_all-once_example : count "c1" (handle_all power (new_app config (pos 10)) drive).effects ≡ 1
unfolding all_known is_known contains new_app count arrives
handle_all-once_example = handle_all-once power "c1" drive (new_app config (pos 10)) refl refl refl
