-- ===== src/Viewer/Calibrator/Detection.antt =====
-- One round of a stage: which axis it takes.
use v3xctrl.Base.{
  ℕ, suc, ◌≡◌, refl, Bool, true, false, Option, none, some, List, [], ◌∷◌, ltb, nat_eq, is_some,
  Option-cases, sym, ap, ◌∙◌, arith, if◌then◌else◌, ◌⊎◌, inl, inr, Bool-cases,
}
use v3xctrl.Base.Sets.{contains}
use v3xctrl.Viewer.Calibrator.{
  AxisCalibrationData, get_elem?, distance, diffs_from, best_from, detect, detect_axis,
  detect_and_record, record_value, track_max, track_min, record_idle,
}

-- An excluded axis is the best one only with a difference of 0.
best_from-excluded :
    (excluded xs bs : List ℕ) (best value i : ℕ)
    → (contains best excluded ≡ true → value ≡ 0)
    → let r = best_from best value i (diffs_from i excluded xs bs) in
      contains r.0 excluded ≡ true → r.1 ≡ 0
unfolding best_from diffs_from
best_from-excluded excluded [] bs best value i h = h
best_from-excluded excluded (x ∷ xs) [] best value i h = h
best_from-excluded excluded (x ∷ xs) (b ∷ bs) best value i h =
    let d = if contains i excluded then 0 else distance x b in
    let here : contains i excluded ≡ true → d ≡ 0 = λ e. rw e refl in
    let new = best_from-excluded excluded xs bs i d (suc i) here in
    let old = best_from-excluded excluded xs bs best value (suc i) h in
    elim (Bool-cases (ltb value d)) [ inl e ↦ rw e new | inr e ↦ rw e old ]

-- What one round does to an axis's number: it stays, or it was not known and is now one that is not
-- excluded.
abbrev pub Taken : List ℕ → Option ℕ → Option ℕ → Type 0
Taken excluded before after =
    (after ≡ before)
    ⊎ ((j : ℕ) × (before ≡ none) × (after ≡ some j) × (contains j excluded ≡ false))

detect-Taken :
    (excluded : List ℕ) (u h now : ℕ) (r : ℕ × ℕ) (a : AxisCalibrationData)
    → a.axis ≡ none
    → (contains r.0 excluded ≡ true → r.1 ≡ 0)
    → Taken excluded a.axis (detect u h now r a).axis
unfolding detect
detect-Taken excluded u h now (j, diff) a n e = elim (Bool-cases (contains j excluded)) [
  | inl c ↦ inl (let z = e c in ground arith)
  | inr c ↦ elim (Option-cases (detect u h now (j, diff) a).axis) [
    | inl m ↦ inl (m ∙ sym n)
    | inr (k, m) ↦ inr (j, n, ground arith, c)
  ]
]

detect_axis-base :
    (excluded axes base : List ℕ) (u h now : ℕ) (a a' : AxisCalibrationData)
    → a.axis ≡ none
    → a.baseline ≡ some base
    → detect_axis u h now axes excluded a ≡ some a'
    → Taken excluded a.axis a'.axis
unfolding detect_axis diffs_from
detect_axis-base excluded [] base u h now a a' n k e = ground arith
detect_axis-base excluded (x ∷ xs) [] u h now a a' n k e = ground arith
detect_axis-base excluded (x ∷ xs) (b ∷ bs) u h now a a' n k e =
    let d = if contains 0 excluded then 0 else distance x b in
    let r = best_from 0 d 1 (diffs_from 1 excluded xs bs) in
    let t =
      detect-Taken excluded u h now r a n
        (best_from-excluded excluded xs bs 0 d 1 (λ c. rw c refl)) in
    let same : detect u h now r a ≡ a' = ground arith in rw (← same) t

detect_axis-Taken :
    (excluded axes : List ℕ) (u h now : ℕ) (a a' : AxisCalibrationData)
    → a.axis ≡ none
    → detect_axis u h now axes excluded a ≡ some a'
    → Taken excluded a.axis a'.axis
unfolding detect_axis
detect_axis-Taken excluded axes u h now a a' n e = elim (Option-cases a.baseline) [
  | inl k ↦ inl (ground arith)
  | inr (base, k) ↦ detect_axis-base excluded axes base u h now a a' n k e
]

record_value-axis :
    (u h now value : ℕ) (a : AxisCalibrationData) → (record_value u h now value a).0.axis ≡ a.axis
unfolding record_value track_max track_min
record_value-axis u h now value a = ground arith

pub record_idle-axis :
    (u h now value : ℕ) (a : AxisCalibrationData) → (record_idle u h now value a).0.axis ≡ a.axis
unfolding record_idle
record_idle-axis u h now value a = ground arith

-- One round of a recording stage; it ends only with an axis that is known.
pub detect_and_record-Taken :
    (excluded axes : List ℕ) (u h now : ℕ) (a a' : AxisCalibrationData) (ended : Bool)
    → detect_and_record u h now axes excluded a ≡ some (a', ended)
    → Taken excluded a.axis a'.axis × (ended ≡ true → is_some a'.axis ≡ true)
unfolding detect_and_record
detect_and_record-Taken excluded axes u h now a a' ended e = elim (Option-cases a.axis) [
  | inl n ↦ elim (Option-cases (detect_axis u h now axes excluded a)) [
    | inl f ↦ ground arith
    | inr (a1, f) ↦
        let same : a1 ≡ a' = ground arith in
        let t = detect_axis-Taken excluded axes u h now a a1 n f in (rw (← same) t, ground arith)
  ]
  | inr (i, k) ↦ elim (Option-cases (get_elem? axes i)) [
    | inl f ↦ ground arith
    | inr (value, f) ↦
        let keeps = record_value-axis u h now value a in
        let same : (record_value u h now value a).0 ≡ a' = ground arith in
        let kept : a'.axis ≡ a.axis = sym (ap (λ x. x.axis) same) ∙ keeps in
        (inl kept, ground arith)
  ]
]
