-- ===== src/Viewer/Calibrator/Axes.antt =====
-- Which axes the calibration takes.
use v3xctrl.Base.{
  ℕ, ◌≡◌, refl, Bool, true, false, not, ◌||◌, Option, none, some, List, [], ◌∷◌, ◌==◌, nat_eq,
  is_some, Option-cases, arith, inl, inr, Bool-cases,
}
use v3xctrl.Base.Sets.{contains}
use v3xctrl.Viewer.Calibrator.{
  CalibrationStage, steering_stage, center_stage, throttle_stage, brake_stage, GamepadCalibrator,
  axis_value, new_calibrator, new_axis, is_active, detect_and_record, known_axes, update_stage,
  update, start, queue_next_stage, resume_calibration, complete_calibration,
}
use v3xctrl.Viewer.Calibrator.Detection.{Taken, detect_and_record-Taken, record_idle-axis}

-- A stage after the first.
abbrev is_later : Option CalibrationStage → Bool
is_later none = false
is_later (some steering_stage) = false
is_later (some center_stage) = true
is_later (some throttle_stage) = true
is_later (some brake_stage) = true

abbrev pub apart : Option ℕ → Option ℕ → Bool
apart (some i) (some j) = not (i == j)
apart none b = true
apart (some i) none = true

-- The steering axis is known after its stage, and the two others are known only with it and differ
-- from it.
pub record IsSound (c : GamepadCalibrator) : Type 0 where
  pub later_stage : is_later c.stage ≡ true → is_some c.steering.axis ≡ true
  pub later_pending : is_later c.pending_stage ≡ true → is_some c.steering.axis ≡ true
  pub throttle_after : is_some c.throttle.axis ≡ true → is_some c.steering.axis ≡ true
  pub brake_after : is_some c.brake.axis ≡ true → is_some c.steering.axis ≡ true
  pub throttle_apart : apart c.steering.axis c.throttle.axis ≡ true
  pub brake_apart : apart c.steering.axis c.brake.axis ≡ true

-- A steering axis that is found leaves the others apart: they are not known before it.
Taken-steering :
    (b a o : Option ℕ)
    → Taken [] b a
    → (is_some o ≡ true → is_some b ≡ true)
    → apart b o ≡ true
    → (apart a o ≡ true) × (is_some b ≡ true → is_some a ≡ true)
Taken-steering b a o (inl same) k h = rw same (h, (λ x. x))
Taken-steering b a none (inr (j, n, s, x)) k h = ground arith
Taken-steering b a (some i) (inr (j, n, s, x)) k h = ground arith

-- An axis that is found with the steering axis excluded is not that one.
Taken-other :
    (s b a : Option ℕ)
    → Taken (known_axes s) b a
    → is_some s ≡ true
    → apart s b ≡ true
    → apart s a ≡ true
unfolding contains
Taken-other none b a t k h = refl
Taken-other (some i) b a (inl same) k h = rw same h
Taken-other (some i) b a (inr (j, n, e, x)) k h = ground arith

update_stage-IsSound :
    (u h now : ℕ) (axes : List ℕ) (stage : CalibrationStage) (c c' : GamepadCalibrator)
    → IsSound c
    → c.stage ≡ some stage
    → update_stage u h now axes stage c ≡ some c'
    → IsSound c'
unfolding update_stage queue_next_stage complete_calibration
update_stage-IsSound u h now axes steering_stage c c' s k e =
    elim (Option-cases (detect_and_record u h now axes [] c.steering)) [
      | inl f ↦ ground arith
      | inr ((a, ended), f) ↦
          let (taken, known) = detect_and_record-Taken [] axes u h now c.steering a ended f in
          let t =
            Taken-steering c.steering.axis a.axis c.throttle.axis taken s.throttle_after
              s.throttle_apart in
          let b =
            Taken-steering c.steering.axis a.axis c.brake.axis taken s.brake_after s.brake_apart in
          ground arith
    ]
update_stage-IsSound u h now axes center_stage c c' s k e =
    elim (Option-cases (axis_value c.steering.axis axes)) [
      | inl f ↦ ground arith
      | inr (value, f) ↦ let keeps = record_idle-axis u h now value c.steering in ground arith
    ]
update_stage-IsSound u h now axes throttle_stage c c' s k e =
    elim (Option-cases (detect_and_record u h now axes (known_axes c.steering.axis) c.throttle)) [
      | inl f ↦ ground arith
      | inr ((a, ended), f) ↦
          let (taken, known) =
            detect_and_record-Taken (known_axes c.steering.axis) axes u h now c.throttle a ended
              f in
          let there : is_some c.steering.axis ≡ true = ground arith in
          let t = Taken-other c.steering.axis c.throttle.axis a.axis taken there s.throttle_apart in
          ground arith
    ]
update_stage-IsSound u h now axes brake_stage c c' s k e =
    elim (Option-cases (detect_and_record u h now axes (known_axes c.steering.axis) c.brake)) [
      | inl f ↦ ground arith
      | inr ((a, ended), f) ↦
          let (taken, known) =
            detect_and_record-Taken (known_axes c.steering.axis) axes u h now c.brake a ended f in
          let there : is_some c.steering.axis ≡ true = ground arith in
          let t = Taken-other c.steering.axis c.brake.axis a.axis taken there s.brake_apart in
          ground arith
    ]

update-IsSound :
    (u h now : ℕ) (axes : List ℕ) (c c' : GamepadCalibrator)
    → IsSound c
    → update u h now axes c ≡ some c'
    → IsSound c'
unfolding update
update-IsSound u h now axes c c' s e = elim (Option-cases c.stage) [
  | inl k ↦ let same : c ≡ c' = ground arith in rw (← same) s
  | inr (stage, k) ↦ elim (Bool-cases (is_active c.state)) [
    | inl on ↦ update_stage-IsSound u h now axes stage c c' s k (ground arith)
    | inr off ↦ let same : c ≡ c' = ground arith in rw (← same) s
  ]
]

-- What the calibration meets: its start, the axes read in a frame, and the user's confirmation.
pub data Action : Type 0 where
  begin : Action
  read : ℕ → List ℕ → Action
  confirm : Action

unfoldable pub act : ℕ → ℕ → Action → GamepadCalibrator → Option GamepadCalibrator
act u h begin c = some (start c)
act u h (read now axes) c = update u h now axes c
act u h confirm c = some (resume_calibration c)

unfoldable pub act_all : ℕ → ℕ → List Action → GamepadCalibrator → Option GamepadCalibrator
act_all u h [] c = some c
act_all u h (a ∷ as') c = elim (act u h a c) [ none ↦ none | some c' ↦ act_all u h as' c' ]

act-IsSound :
    (u h : ℕ) (a : Action) (c c' : GamepadCalibrator)
    → IsSound c
    → act u h a c ≡ some c'
    → IsSound c'
unfolding act start resume_calibration
act-IsSound u h begin c c' s e = ground arith
act-IsSound u h (read now axes) c c' s e = update-IsSound u h now axes c c' s e
act-IsSound u h confirm c c' s e = ground arith

act_all-IsSound :
    (u h : ℕ) (as' : List Action) (c c' : GamepadCalibrator)
    → IsSound c
    → act_all u h as' c ≡ some c'
    → IsSound c'
unfolding act_all
act_all-IsSound u h [] c c' s e = let same : c ≡ c' = ground arith in rw (← same) s
act_all-IsSound u h (a ∷ as') c c' s e = elim (Option-cases (act u h a c)) [
  | inl f ↦ ground arith
  | inr (c1, f) ↦ act_all-IsSound u h as' c1 c' (act-IsSound u h a c c1 s f) (ground arith)
]

new_calibrator-IsSound : (has_dialog : Bool) → IsSound (new_calibrator has_dialog)
unfolding new_calibrator new_axis
new_calibrator-IsSound has_dialog = ground arith

-- From a new calibrator, after any starts, axis readings and confirmations that raise nothing: the
-- axis found for the throttle and the one found for the brake each differ from the steering axis,
-- and neither is known before that.
pub act_all-axes_apart :
    (u h : ℕ) (has_dialog : Bool) (as' : List Action) (c : GamepadCalibrator)
    → act_all u h as' (new_calibrator has_dialog) ≡ some c
    → (apart c.steering.axis c.throttle.axis ≡ true)
      × (apart c.steering.axis c.brake.axis ≡ true)
      × (not (is_some c.throttle.axis) || is_some c.steering.axis ≡ true)
      × (not (is_some c.brake.axis) || is_some c.steering.axis ≡ true)
act_all-axes_apart u h has_dialog as' c e =
    let s =
      act_all-IsSound u h as' (new_calibrator has_dialog) c (new_calibrator-IsSound has_dialog) e in
    (s.throttle_apart, s.brake_apart, ground arith, ground arith)
