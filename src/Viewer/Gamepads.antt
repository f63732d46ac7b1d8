-- ===== src/Viewer/Gamepads.antt =====
-- GamepadController.py: which gamepad is active, and what read_inputs makes of its axes. Axis values
-- and calibrated points are scaled to natural numbers, and a normalised value is an exact fraction.
-- A dictionary's keys stand for the set of the connected gamepads, in the order that it is gone
-- through.
pub mod Active
pub mod Axes
use v3xctrl.Base.{
  ℕ, ◌+◌, ◌-◌, ◌*◌, min, max, String, Bool, true, false, not, ◌&&◌, ◌||◌, Option, none, some, List,
  [], ◌∷◌, ◌++◌, ◌==◌, ltb, leb, string_eq, is_some, if◌then◌else◌, nat_beq,
}
use v3xctrl.Base.Dict.{Dict, get, has, put, keys}
use v3xctrl.Base.Sets.{contains, set_eq}

pub record AxisConfig : Type 0 where
  pub axis : Option ℕ
  pub invert : Bool
  pub low : ℕ
  pub high : ℕ
  pub center : Option ℕ
  -- in percent
  pub deadband : ℕ

-- The settings of one gamepad: the axes by name, and the buttons.
pub record Calibration : Type 0 where
  pub axes : Dict String AxisConfig
  pub buttons : Option (Dict String ℕ)

-- The truth of the settings: a dictionary that is not empty.
unfoldable pub is_filled : Calibration → Bool
is_filled c = elim c.axes [ [] ↦ is_some c.buttons | a ∷ as' ↦ true ]

-- A gamepad is a number. `notified` holds what the observers were given.
pub record Controller : Type 0 where
  pub gamepads : Dict String ℕ
  pub settings : Dict String Calibration
  pub active_guid : Option String
  pub active_gamepad : Option ℕ
  pub active_settings : Option Calibration
  pub previous_guids : List String
  pub notified : List (List String)

abbrev pub new_controller : Controller
new_controller = record {
  gamepads = [];
  settings = [];
  active_guid = none;
  active_gamepad = none;
  active_settings = none;
  previous_guids = [];
  notified = [];
}

unfoldable pub activate : Option ℕ → Option Calibration → Controller → Controller
unfolding is_filled
activate (some js) (some s) c =
    if is_filled s
    then record c { active_gamepad = some js; active_settings = some s }
    else record c { active_gamepad = none; active_settings = none }
activate _ _ c = record c { active_gamepad = none; active_settings = none }

-- _set_active_unlocked, and set_active
unfoldable pub set_active : String → Controller → Controller
unfolding activate
set_active guid c =
    activate (get guid c.gamepads) (get guid c.settings) (record c { active_guid = some guid })

unfoldable pub set_calibration : String → Calibration → Controller → Controller
set_calibration guid s c = record c { settings = put guid s c.settings }

-- `not self._active_gamepad or not self._active_settings`
unfoldable pub is_inactive : Controller → Bool
is_inactive c = not (is_some c.active_gamepad && is_some c.active_settings)

-- The first of the gamepads that has settings, if none is active.
unfoldable pub activate_known : List String → Controller → Controller
unfolding set_active is_inactive
activate_known [] c = c
activate_known (guid ∷ guids) c =
    let rest = activate_known guids c in
    if has guid c.settings && is_inactive c then set_active guid c else rest

unfoldable pub guid_in : Option String → List String → Bool
guid_in none guids = false
guid_in (some guid) guids = contains guid guids

-- `self._active_guid and gamepads.get(self._active_guid)`
unfoldable pub is_connected : Option String → Dict String ℕ → Bool
is_connected none gamepads = false
is_connected (some guid) gamepads = not (guid == "") && has guid gamepads

unfoldable pub or_empty_text : Option String → String
or_empty_text none = ""
or_empty_text (some text) = text

unfoldable pub choose_active : Controller → Controller
unfolding is_connected set_active is_inactive activate_known or_empty_text
choose_active c =
    if is_connected c.active_guid c.gamepads
    then (if is_inactive c then set_active (or_empty_text c.active_guid) c else c)
    else activate_known (keys c.gamepads) c

unfoldable pub drop_missing : Controller → Controller
unfolding guid_in
drop_missing c =
    if guid_in c.active_guid (keys c.gamepads)
    then c
    else record c { active_gamepad = none; active_settings = none }

-- One round of run, at the gamepads that are found.
unfoldable pub refresh : Dict String ℕ → Controller → Controller
unfolding choose_active drop_missing
refresh found c =
    if set_eq (keys found) c.previous_guids
    then c
    else (let chosen =
          drop_missing
            (choose_active (record c { gamepads = found; previous_guids = keys found })) in
        record chosen { notified = chosen.notified ++ (keys found ∷ []) })

-- A normalised value, num / den, with its sign.
pub record Fraction : Type 0 where
  pub negative : Bool
  pub num : ℕ
  pub den : ℕ

abbrev pub zero_value : Fraction
zero_value = record { negative = false; num = 0; den = 1 }

unfoldable pub clamp : ℕ → ℕ → ℕ → ℕ
clamp raw a b = max (min a b) (min (max a b) raw)

-- _remap to 0.0 … 1.0, between calibrated points in either order
unfoldable pub remap : ℕ → ℕ → ℕ → Fraction
remap value from to =
    if nat_beq from to
    then zero_value
    else if leb from to
    then record { negative = false; num = value - from; den = to - from }
    else record { negative = false; num = from - value; den = from - to }

-- _remap_centered to -1.0, 0.0, 1.0, for points in ascending order
unfoldable pub remap_centered : ℕ → ℕ → ℕ → ℕ → Fraction
remap_centered value low center high =
    if ltb value center
    then (if nat_beq center low
        then zero_value
        else record { negative = true; num = center - value; den = center - low })
    else (if nat_beq high center
        then zero_value
        else record { negative = false; num = value - center; den = high - center })

unfoldable pub negate : Fraction → Fraction
negate f = record f { negative = not f.negative }

-- normalized, before the deadband
unfoldable pub normalize : AxisConfig → ℕ → Fraction
unfolding clamp remap remap_centered negate
normalize cfg raw =
    let value = clamp raw cfg.low cfg.high in
    elim cfg.center [
      | some center ↦
          let f = remap_centered value cfg.low center cfg.high in if cfg.invert then negate f else f
      | none ↦ if cfg.invert then remap value cfg.high cfg.low else remap value cfg.low cfg.high
    ]

-- The deadband: the part of the way behind it; `none` is the ZeroDivisionError.
unfoldable pub apply_deadband : ℕ → Fraction → Option Fraction
apply_deadband percent f =
    if ltb (f.num * 100) (percent * f.den)
    then some zero_value
    else if nat_beq percent 100
    then none
    else some (record f { num = f.num * 100 - percent * f.den; den = f.den * (100 - percent) })

-- read_inputs for one axis that the gamepad has, at the value that it reads
unfoldable pub read_axis : Bool → AxisConfig → ℕ → Option Fraction
unfolding normalize apply_deadband
read_axis with_deadband cfg raw =
    let f = normalize cfg raw in if with_deadband then apply_deadband cfg.deadband f else some f

-- The axes of the settings that the gamepad has and that can be read (`values`); `none` in all is the
-- ZeroDivisionError.
unfoldable pub read_axes :
    Bool → ℕ → (ℕ → Option ℕ) → Dict String AxisConfig → Option (List (String × Fraction))
unfolding read_axis
read_axes with_deadband count values [] = some []
read_axes with_deadband count values ((key, cfg) ∷ axes) =
    let rest = read_axes with_deadband count values axes in
    elim cfg.axis [
      | none ↦ rest
      | some i ↦
          if ltb i count
          then (elim (values i) [
            | none ↦ rest
            | some raw ↦ elim (read_axis with_deadband cfg raw) [
              | none ↦ none
              | some f ↦ elim rest [ none ↦ none | some fs ↦ some ((key, f) ∷ fs) ]
            ]
          ])
          else rest
    ]

unfoldable pub inversions : Dict String AxisConfig → List (String × Bool)
inversions [] = []
inversions ((key, cfg) ∷ axes) = (key, cfg.invert) ∷ inversions axes

unfoldable pub get_axis_inversion : Controller → List (String × Bool)
get_axis_inversion c = elim c.active_settings [ none ↦ [] | some s ↦ inversions s.axes ]

unfoldable pub get_button_mapping : String → Controller → Option ℕ
get_button_mapping name c = elim c.active_settings [
  | none ↦ none
  | some s ↦ elim s.buttons [ none ↦ none | some buttons ↦ get name buttons ]
]
