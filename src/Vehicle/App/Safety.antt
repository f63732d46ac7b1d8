-- ===== src/Vehicle/App/Safety.antt =====
-- The servos never get a pulse outside the configured ranges.
use v3xctrl.Base.{
  ℕ, ◌≤◌, ◌≡◌, refl, String, Bool, true, false, List, [], ◌∷◌, ◌==◌, string_eq, arith,
}
use v3xctrl.Base.Bytes.{ℤ}
use v3xctrl.Base.Sets.{add}
use v3xctrl.Vehicle.Pulse.{Axis, Config, apply_expo}
use v3xctrl.Vehicle.Pulse.Bounds.{
  IsSensible, throttle_pulse-bounds, steering_pulse-bounds, steering_center-bounds,
}
use v3xctrl.Vehicle.App.{
  Command, service, recording, trim, shutdown, restart, unknown, App, new_app, set_pulses,
  control_handler, latency_handler, start_effect, stepped, change_trim, execute, command_handler,
  disconnect_handler, Event, controlled, pinged, commanded, disconnected, handle, handle_all,
}

pub record IsSafe (c : Config) (a : App) : Type 0 where
  pub same : a.config ≡ c
  pub throttle : (c.throttle_min ≤ a.pwm.throttle) × (a.pwm.throttle ≤ c.throttle_max)
  pub steering : (c.steering_min ≤ a.pwm.steering) × (a.pwm.steering ≤ c.steering_max)
  pub centered : (c.steering_min ≤ a.center) × (a.center ≤ c.steering_max)

module _ (c : Config) (sensible : IsSensible c) where
  set_pulses-IsSafe :
      (t s : ℕ) (a : App)
      → IsSafe c a
      → (c.throttle_min ≤ t) × (t ≤ c.throttle_max)
      → (c.steering_min ≤ s) × (s ≤ c.steering_max)
      → IsSafe c (set_pulses t s a)
  unfolding set_pulses
  set_pulses-IsSafe t s a safe ht hs = record {
    same = safe.same;
    throttle = ht;
    steering = hs;
    centered = safe.centered;
  }

  control_handler-IsSafe :
      (power : ℕ → ℕ → ℕ) (connected : Bool) (t s : Axis) (a : App)
      → IsSafe c a
      → IsSafe c (control_handler power connected t s a)
  unfolding control_handler
  control_handler-IsSafe power true t s a safe =
      set_pulses-IsSafe _ _ a safe
        (rw safe.same (throttle_pulse-bounds c (apply_expo power c.throttle_expo t) sensible))
        (rw safe.same (
          steering_pulse-bounds c a.steering_trim (apply_expo power c.steering_expo s)
            sensible.steering))
  control_handler-IsSafe power false t s a safe =
      set_pulses-IsSafe _ _ a safe (rw safe.same sensible.throttle_failsafe)
        (rw safe.same sensible.steering_failsafe)

  change_trim-IsSafe : (id : String) (t : ℤ) (a : App) → IsSafe c a → IsSafe c (change_trim id t a)
  unfolding change_trim start_effect
  change_trim-IsSafe id t a safe = record {
    same = safe.same;
    throttle = safe.throttle;
    steering = safe.steering;
    centered = rw safe.same (steering_center-bounds c t sensible.steering);
  }

  execute-IsSafe : (id : String) (x : Command) (a : App) → IsSafe c a → IsSafe c (execute id x a)
  unfolding execute start_effect
  execute-IsSafe id (service action name) a safe = ground arith
  execute-IsSafe id (recording action) a safe = ground arith
  execute-IsSafe id (trim action) a safe =
      change_trim-IsSafe id (stepped (action == "increase") a.steering_trim) a safe
  execute-IsSafe id shutdown a safe = ground arith
  execute-IsSafe id restart a safe = ground arith
  execute-IsSafe id unknown a safe = safe

  handle-IsSafe :
      (power : ℕ → ℕ → ℕ) (a : App) (e : Event) → IsSafe c a → IsSafe c (handle power a e)
  unfolding handle latency_handler command_handler disconnect_handler
  handle-IsSafe power a (controlled connected t s) safe =
      control_handler-IsSafe power connected t s a safe
  handle-IsSafe power a (pinged timestamp) safe = ground arith
  handle-IsSafe power a (commanded id x) safe =
      let noted = record a { received_command_ids = add id a.received_command_ids } in
      ground (arith, safe, execute-IsSafe id x noted (ground arith))
  handle-IsSafe power a disconnected safe =
      set_pulses-IsSafe _ _ a safe
        (rw safe.same (let b = sensible.backward in let f = sensible.forward in omega arith))
        safe.centered

  handle_all-IsSafe :
      (power : ℕ → ℕ → ℕ) (es : List Event) (a : App)
      → IsSafe c a
      → IsSafe c (handle_all power a es)
  unfolding handle_all
  handle_all-IsSafe power [] a safe = safe
  handle_all-IsSafe power (e ∷ es) a safe =
      handle_all-IsSafe power es (handle power a e) (handle-IsSafe power a e safe)

  new_app-IsSafe : (t : ℤ) → IsSafe c (new_app c t)
  unfolding new_app
  new_app-IsSafe t =
      let b = sensible.backward in
      let f = sensible.forward in
      let s = steering_center-bounds c t sensible.steering in
      record { same = refl; throttle = omega arith; steering = s; centered = s }

-- For sensible arguments and any trim: whatever Control messages, commands, pings and disconnects
-- come, in any order, and whatever the power function of the expo gives, the throttle's pulse stays
-- between its smallest and its largest, and so does the steering's.
pub handle_all-pulses :
    (c : Config) (t : ℤ) (power : ℕ → ℕ → ℕ) (es : List Event)
    → IsSensible c
    → (let p = (handle_all power (new_app c t) es).pwm in
        (c.throttle_min ≤ p.throttle)
        × (p.throttle ≤ c.throttle_max)
        × (c.steering_min ≤ p.steering)
        × (p.steering ≤ c.steering_max))
handle_all-pulses c t power es sensible =
    let safe = handle_all-IsSafe c sensible power es (new_app c t) (new_app-IsSafe c sensible t) in
    (safe.throttle.0, safe.throttle.1, safe.steering.0, safe.steering.1)
