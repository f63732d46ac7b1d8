-- ===== src/Viewer/Calibrator.antt =====
-- src/v3xctrl_ui/menu/calibration/GamepadCalibrator.py with the classes of defs.py. An axis value is
-- a number of steps above the axis's least value, `u` of which are 0.01; `h` is half a second. `none`
-- is an exception: an index out of range, no axes at all, or an axis that is not known yet.
mod Detection
pub mod Axes
use v3xctrl.Base.{
  ℕ, zero, suc, ◌+◌, ◌-◌, ◌*◌, Bool, true, false, ◌&&◌, Option, none, some, List, [], ◌∷◌, ◌++◌,
  ltb, leb, length, min, max, nat_eq, if◌then◌else◌,
}
use v3xctrl.Base.Sets.{contains}

pub data CalibrationStage : Type 0 where
  steering_stage center_stage throttle_stage brake_stage : CalibrationStage

pub data CalibratorState : Type 0 where
  pause active complete : CalibratorState

pub record AxisCalibrationData : Type 0 where
  pub axis : Option ℕ
  pub baseline : Option (List ℕ)
  pub detection_start : Option ℕ
  pub max_values : List ℕ
  pub max_last : Option ℕ
  pub max_stable_since : ℕ
  pub min_last : Option ℕ
  pub min_stable_since : ℕ
  pub idle_last : Option ℕ
  pub idle_stable_since : Option ℕ
  pub idle_samples : List ℕ

unfoldable pub new_axis : AxisCalibrationData
new_axis = record {
  axis = none;
  baseline = none;
  detection_start = none;
  max_values = [];
  max_last = none;
  max_stable_since = 0;
  min_last = none;
  min_stable_since = 0;
  idle_last = none;
  idle_stable_since = none;
  idle_samples = [];
}

pub record GamepadCalibrator : Type 0 where
  pub has_dialog : Bool
  pub stage : Option CalibrationStage
  pub state : CalibratorState
  pub pending_stage : Option CalibrationStage
  pub waiting_for_user : Bool
  pub steering : AxisCalibrationData
  pub throttle : AxisCalibrationData
  pub brake : AxisCalibrationData

unfoldable pub new_calibrator : Bool → GamepadCalibrator
unfolding new_axis
new_calibrator has_dialog = record {
  has_dialog = has_dialog;
  stage = none;
  state = pause;
  pending_stage = none;
  waiting_for_user = false;
  steering = new_axis;
  throttle = new_axis;
  brake = new_axis;
}

unfoldable pub start : GamepadCalibrator → GamepadCalibrator
start c = record c { state = active; stage = some steering_stage }

-- _queue_next_stage_with_dialog
unfoldable pub queue_next_stage : CalibrationStage → GamepadCalibrator → GamepadCalibrator
queue_next_stage next c =
    if c.has_dialog
    then record c { waiting_for_user = true; pending_stage = some next; state = pause }
    else c

-- _resume_calibration
unfoldable pub resume_calibration : GamepadCalibrator → GamepadCalibrator
resume_calibration c = record c {
  stage = c.pending_stage;
  pending_stage = none;
  state = active;
  waiting_for_user = false;
}

-- _complete
unfoldable pub complete_calibration : GamepadCalibrator → GamepadCalibrator
complete_calibration c = record c { state = complete; stage = none }

-- axes[i]
abbrev pub get_elem? : List ℕ → ℕ → Option ℕ
get_elem? [] i = none
get_elem? (x ∷ xs) zero = some x
get_elem? (x ∷ xs) (suc i) = get_elem? xs i

abbrev pub distance : ℕ → ℕ → ℕ
distance a b = (a - b) + (b - a)

-- `diffs`, from the axis with the number `i` on
unfoldable pub diffs_from : ℕ → List ℕ → List ℕ → List ℕ → List ℕ
diffs_from i excluded [] bs = []
diffs_from i excluded (a ∷ as') [] = []
diffs_from i excluded (a ∷ as') (b ∷ bs) =
    (if contains i excluded then 0 else distance a b) ∷ diffs_from (suc i) excluded as' bs

-- `max(range(len(diffs)), key=…)`: the first of the greatest, from a best one so far
unfoldable pub best_from : ℕ → ℕ → ℕ → List ℕ → ℕ × ℕ
best_from best value i [] = (best, value)
best_from best value i (d ∷ ds) =
    let rest = best_from i d (suc i) ds in
    let same = best_from best value (suc i) ds in if ltb value d then rest else same

-- from `diffs[axis] > AXIS_MOVEMENT_THRESHOLD` on
unfoldable pub detect : ℕ → ℕ → ℕ → ℕ × ℕ → AxisCalibrationData → AxisCalibrationData
detect u h now (axis, diff) a =
    if ltb (30 * u) diff
    then elim a.detection_start [
      | none ↦ record a { detection_start = some now }
      | some t ↦ if leb (h + t) now then record a { axis = some axis } else a
    ]
    else record a { detection_start = none }

-- the branch of _detect_and_record_axis for an axis that is not known; `none` is the ValueError of no axes
unfoldable pub detect_axis :
    ℕ → ℕ → ℕ → List ℕ → List ℕ → AxisCalibrationData → Option AxisCalibrationData
unfolding detect diffs_from best_from
detect_axis u h now axes excluded a = elim a.baseline [
  | none ↦ some (record a { baseline = some axes })
  | some base ↦ elim (diffs_from 0 excluded axes base) [
    | [] ↦ none
    | d ∷ ds ↦ some (detect u h now (best_from 0 d 1 ds) a)
  ]
]

abbrev pub max_of : ℕ → List ℕ → ℕ
max_of x [] = x
max_of x (y ∷ ys) = max_of (max x y) ys

abbrev pub min_of : ℕ → List ℕ → ℕ
min_of x [] = x
min_of x (y ∷ ys) = min_of (min x y) ys

-- `if axis_data.max_last is None or current_max > axis_data.max_last + 0.01`
unfoldable pub track_max : ℕ → ℕ → ℕ → AxisCalibrationData → AxisCalibrationData
track_max u now current_max a = elim a.max_last [
  | none ↦ record a { max_last = some current_max; max_stable_since = now }
  | some last ↦
      if ltb (last + u) current_max
      then record a { max_last = some current_max; max_stable_since = now }
      else a
]

unfoldable pub track_min : ℕ → ℕ → ℕ → AxisCalibrationData → AxisCalibrationData
track_min u now current_min a = elim a.min_last [
  | none ↦ record a { min_last = some current_min; min_stable_since = now }
  | some last ↦
      if ltb (current_min + u) last
      then record a { min_last = some current_min; min_stable_since = now }
      else a
]

-- the other branch, for the axis's value; the flag is the last test, which ends the stage
unfoldable pub record_value : ℕ → ℕ → ℕ → ℕ → AxisCalibrationData → AxisCalibrationData × Bool
unfolding track_max track_min
record_value u h now value a =
    let current_max = max_of value a.max_values in
    let current_min = min_of value a.max_values in
    let a' =
      track_min u now current_min
        (track_max u now current_max (record a { max_values = a.max_values ++ (value ∷ []) })) in
    (
      a',
      leb (30 * u) (current_max - current_min)
          && (leb (3 * h + a'.min_stable_since) now && leb (3 * h + a'.max_stable_since) now),
    )

-- _detect_and_record_axis, for the axis's data; the flag says that the stage ends
unfoldable pub detect_and_record :
    ℕ → ℕ → ℕ → List ℕ → List ℕ → AxisCalibrationData → Option (AxisCalibrationData × Bool)
unfolding detect_axis record_value
detect_and_record u h now axes excluded a = elim a.axis [
  | none ↦ elim (detect_axis u h now axes excluded a) [ none ↦ none | some a' ↦ some (a', false) ]
  | some i ↦ elim (get_elem? axes i) [
    | none ↦ none
    | some value ↦ some (record_value u h now value a)
  ]
]

-- _record_center_idle, for the axis's value
unfoldable pub record_idle : ℕ → ℕ → ℕ → ℕ → AxisCalibrationData → AxisCalibrationData × Bool
record_idle u h now value a = elim a.idle_last [
  | none ↦ (record a { idle_last = some value }, false)
  | some last ↦
      if ltb (distance value last) (5 * u)
      then elim a.idle_stable_since [
        | none ↦ (record a { idle_stable_since = some now; idle_last = some value }, false)
        | some t ↦
            if leb (3 * h + t) now
            then (
              record a { idle_samples = a.idle_samples ++ (value ∷ []); idle_last = some value },
              leb 10 (length a.idle_samples + 1),
            )
            else (record a { idle_last = some value }, false)
      ]
      else (record a { idle_stable_since = none; idle_last = some value }, false)
]

-- `i = axis_data.axis; value = axes[i]`
abbrev pub axis_value : Option ℕ → List ℕ → Option ℕ
axis_value none axes = none
axis_value (some i) axes = get_elem? axes i

-- the list of `excluded_indices` for `exclude=["steering"]`
abbrev pub known_axes : Option ℕ → List ℕ
known_axes none = []
known_axes (some i) = i ∷ []

unfoldable pub update_stage :
    ℕ → ℕ → ℕ → List ℕ → CalibrationStage → GamepadCalibrator → Option GamepadCalibrator
unfolding detect_and_record record_idle queue_next_stage complete_calibration
update_stage u h now axes steering_stage c = elim (detect_and_record u h now axes [] c.steering) [
  | none ↦ none
  | some (a, ended) ↦
      let c' = record c { steering = a } in
      some (if ended then queue_next_stage center_stage c' else c')
]
update_stage u h now axes center_stage c = elim (axis_value c.steering.axis axes) [
  | none ↦ none
  | some value ↦
      let (a, ended) = record_idle u h now value c.steering in
      let c' = record c { steering = a } in
      some (if ended then queue_next_stage throttle_stage c' else c')
]
update_stage u h now axes throttle_stage c =
    elim (detect_and_record u h now axes (known_axes c.steering.axis) c.throttle) [
      | none ↦ none
      | some (a, ended) ↦
          let c' = record c { throttle = a } in
          some (if ended then queue_next_stage brake_stage c' else c')
    ]
update_stage u h now axes brake_stage c =
    elim (detect_and_record u h now axes (known_axes c.steering.axis) c.brake) [
      | none ↦ none
      | some (a, ended) ↦
          let c' = record c { brake = a } in some (if ended then complete_calibration c' else c')
    ]

abbrev pub is_active : CalibratorState → Bool
is_active active = true
is_active pause = false
is_active complete = false

unfoldable pub update : ℕ → ℕ → ℕ → List ℕ → GamepadCalibrator → Option GamepadCalibrator
unfolding update_stage
update u h now axes c =
    if is_active c.state
    then elim c.stage [ none ↦ some c | some stage ↦ update_stage u h now axes stage c ]
    else some c
