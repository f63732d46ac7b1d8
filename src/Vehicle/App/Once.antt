-- ===== src/Vehicle/App/Once.antt =====
-- A command is carried out once, however often it arrives; and the center that the vehicle falls back
-- to, against the one that it drives with.
use v3xctrl.Base.{
  ℕ, suc, ◌+◌, ◌*◌, ◌/◌, ◌≤◌, ◌<◌, ◌≡◌, refl, String, Bool, true, false, not, ◌&&◌, ◌||◌, List, [],
  ◌∷◌, ◌++◌, ◌==◌, string_eq, if◌then◌else◌, arith,
}
use v3xctrl.Base.Bytes.{ℤ, pos}
use v3xctrl.Base.Sets.{contains, add, contains-add}
use v3xctrl.Vehicle.Pulse.{
  Axis, Config, steering_pulse, steering_center, shifted, negated, clamp, scaled, map_range,
  position, span, between,
}
use v3xctrl.Vehicle.App.{
  Command, service, recording, trim, shutdown, restart, unknown, Effect, save_trim, App,
  control_handler, latency_handler, start_effect, stepped, change_trim, execute, command_handler,
  disconnect_handler, set_pulses, Event, controlled, pinged, commanded, disconnected, handle,
  handle_all,
}

-- how many effects a command has had
unfoldable pub count : String → List (String × Effect) → ℕ
count id [] = 0
count id ((j, e) ∷ l) = let rest = count id l in if j == id then suc rest else rest

count-append :
    (id : String) (l k : List (String × Effect)) → count id (l ++ k) ≡ count id l + count id k
unfolding count
count-append id [] k = omega arith
count-append id ((j, e) ∷ l) k = ground (arith, count-append id l k)

unfoldable pub is_known : Command → Bool
is_known unknown = false
is_known _ = true

-- The command arrives among the events.
unfoldable pub arrives : String → List Event → Bool
arrives id [] = false
arrives id (commanded j x ∷ es) = j == id || arrives id es
arrives id (_ ∷ es) = arrives id es

-- Whatever arrives under the identifier is a command that the vehicle knows.
unfoldable pub all_known : String → List Event → Bool
all_known id [] = true
all_known id (commanded j x ∷ es) = (not (j == id) || is_known x) && all_known id es
all_known id (_ ∷ es) = all_known id es

abbrev one_if : Bool → ℕ
one_if true = 1
one_if false = 0

start_effect-count :
    (id j : String) (e : Effect) (a : App)
    → count id (start_effect j e a).effects ≡ count id a.effects + one_if (j == id)
unfolding start_effect count
start_effect-count id j e a = ground (arith, count-append id a.effects ((j, e) ∷ []))

change_trim-count :
    (id j : String) (t : ℤ) (a : App)
    → count id (change_trim j t a).effects ≡ count id a.effects + one_if (j == id)
unfolding change_trim
change_trim-count id j t a =
    start_effect-count id j (save_trim t)
      (record a { steering_trim = t; center = steering_center a.config t })

execute-received :
    (j : String) (x : Command) (a : App)
    → (execute j x a).received_command_ids ≡ a.received_command_ids
unfolding execute start_effect change_trim
execute-received j (service action name) a = refl
execute-received j (recording action) a = refl
execute-received j (trim action) a = refl
execute-received j shutdown a = refl
execute-received j restart a = refl
execute-received j unknown a = refl

execute-count :
    (id j : String) (x : Command) (a : App)
    → is_known x ≡ true
    → count id (execute j x a).effects ≡ count id a.effects + one_if (j == id)
unfolding execute is_known
execute-count id j (service action name) a h = start_effect-count id j _ a
execute-count id j (recording action) a h = start_effect-count id j _ a
execute-count id j (trim action) a h =
    change_trim-count id j (stepped (action == "increase") a.steering_trim) a
execute-count id j shutdown a h = start_effect-count id j _ a
execute-count id j restart a h = start_effect-count id j _ a
execute-count id j unknown a h = cc

execute-count_other :
    (id j : String) (x : Command) (a : App)
    → (j == id) ≡ false
    → count id (execute j x a).effects ≡ count id a.effects
execute-count_other id j unknown a h = unfold execute in refl
execute-count_other id j (service action name) a h =
    ground (arith, execute-count id j (service action name) a (unfold is_known in refl))
execute-count_other id j (recording action) a h =
    ground (arith, execute-count id j (recording action) a (unfold is_known in refl))
execute-count_other id j (trim action) a h =
    ground (arith, execute-count id j (trim action) a (unfold is_known in refl))
execute-count_other id j shutdown a h =
    ground (arith, execute-count id j shutdown a (unfold is_known in refl))
execute-count_other id j restart a h =
    ground (arith, execute-count id j restart a (unfold is_known in refl))

-- One event, for a command that was received and for one that was not.
module _ (power : ℕ → ℕ → ℕ) (id : String) (a : App) where
  command_handler-count :
      (j : String) (x : Command)
      → (not (j == id) || is_known x) ≡ true
      → (count id (command_handler j x a).effects
          ≡ count id a.effects
            + (if contains id a.received_command_ids then 0 else one_if (j == id)))
        × (contains id (command_handler j x a).received_command_ids
            ≡ (contains id a.received_command_ids || j == id))
  unfolding command_handler
  command_handler-count j x h =
      let noted = record a { received_command_ids = add j a.received_command_ids } in
      ground (
        arith,
        string_eq.same_iff j id,
        contains-add j id a.received_command_ids,
        execute-received j x noted,
        execute-count id j x noted,
        execute-count_other id j x noted,
      )

handle_all-count :
    (power : ℕ → ℕ → ℕ) (id : String) (es : List Event) (a : App)
    → all_known id es ≡ true
    → count id (handle_all power a es).effects
      ≡ count id a.effects
        + (if contains id a.received_command_ids then 0 else one_if (arrives id es))
unfolding handle_all handle all_known arrives
handle_all-count power id [] a h = ground arith
handle_all-count power id (controlled b t s ∷ es) a h =
    unfold control_handler set_pulses in
    ground (arith, handle_all-count power id es (control_handler power b t s a))
handle_all-count power id (pinged t ∷ es) a h =
    unfold latency_handler in ground (arith, handle_all-count power id es (latency_handler t a))
handle_all-count power id (disconnected ∷ es) a h =
    unfold disconnect_handler set_pulses in
    ground (arith, handle_all-count power id es (disconnect_handler a))
handle_all-count power id (commanded j x ∷ es) a h = ground (
  arith,
  command_handler-count power id a j x,
  handle_all-count power id es (command_handler j x a),
)

-- A command that the vehicle knows and has not received before: whatever events come, it has been
-- carried out once if it arrived among them, however often it did, and not at all if it did not.
pub handle_all-once :
    (power : ℕ → ℕ → ℕ) (id : String) (es : List Event) (a : App)
    → all_known id es ≡ true
    → contains id a.received_command_ids ≡ false
    → count id a.effects ≡ 0
    → count id (handle_all power a es).effects ≡ (if arrives id es then 1 else 0)
handle_all-once power id es a h fresh none' = ground (arith, handle_all-count power id es a h)

-- The steering's neutral value.
abbrev pub neutral : Axis
neutral = record { negative = false; magnitude = 0 }

-- With inverted steering and a trim of `n` to the right that no end of the range cuts off: the pulse
-- of the neutral steering lies `2 * n` below the center, which the vehicle goes to when it gets
-- disconnected.
inverted-steering_center :
    (c : Config) (n : ℕ)
    → c.steering_invert ≡ true
    → c.steering_min ≤ c.steering_max
    → 0 < n
    → c.steering_min + n ≤ (c.steering_max + c.steering_min) / 2
    → (c.steering_max + c.steering_min) / 2 + n ≤ c.steering_max
    → steering_pulse c (pos n) neutral + 2 * n ≡ steering_center c (pos n)
unfolding steering_pulse steering_center map_range position span between scaled shifted negated
    clamp
inverted-steering_center c n i h p l u = ground arith
