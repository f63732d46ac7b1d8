-- ===== src/Viewer/Gamepads/Axes.antt =====
-- Normalised axis values lie between -1 and 1.
use v3xctrl.Base.{
  ℕ, ◌-◌, ◌*◌, ◌≤◌, ◌<◌, min, max, ◌≡◌, refl, Bool, true, false, ◌&&◌, none, some, ltb, leb, arith,
  Option-cases, Bool-cases, inl, inr,
}
use v3xctrl.Viewer.Gamepads.{
  AxisConfig, Fraction, zero_value, clamp, remap, remap_centered, negate, normalize, apply_deadband,
  read_axis,
}

pub record IsUnit (f : Fraction) : Type 0 where
  pub positive : 0 < f.den
  pub within : f.num ≤ f.den

-- The center lies between the ends, as a calibration leaves it.
unfoldable pub is_ordered : AxisConfig → Bool
is_ordered cfg = elim cfg.center [
  | none ↦ leb cfg.low cfg.high
  | some center ↦ leb cfg.low center && leb center cfg.high
]

clamp-bounds : (x a b : ℕ) → a ≤ b → (a ≤ clamp x a b) × (clamp x a b ≤ b)
unfolding clamp
clamp-bounds x a b h = (omega arith, omega arith)

remap-IsUnit : (v a b : ℕ) → min a b ≤ v → v ≤ max a b → IsUnit (remap v a b)
unfolding remap
remap-IsUnit v a b l u = ground arith

remap_centered-IsUnit :
    (v low center high : ℕ)
    → low ≤ center
    → center ≤ high
    → low ≤ v
    → v ≤ high
    → IsUnit (remap_centered v low center high)
unfolding remap_centered
remap_centered-IsUnit v low center high a b c d = ground arith

normalize-IsUnit : (cfg : AxisConfig) (raw : ℕ) → is_ordered cfg ≡ true → IsUnit (normalize cfg raw)
unfolding normalize is_ordered negate
normalize-IsUnit cfg raw h = elim (Option-cases cfg.center) [
  | inl e ↦
      let b : (cfg.low ≤ clamp raw cfg.low cfg.high) × (clamp raw cfg.low cfg.high ≤ cfg.high) =
        clamp-bounds raw cfg.low cfg.high (ground arith) in
      ground (
        arith,
        remap-IsUnit (clamp raw cfg.low cfg.high) cfg.low cfg.high,
        remap-IsUnit (clamp raw cfg.low cfg.high) cfg.high cfg.low,
      )
  | inr (center, e) ↦
      let b : (cfg.low ≤ clamp raw cfg.low cfg.high) × (clamp raw cfg.low cfg.high ≤ cfg.high) =
        clamp-bounds raw cfg.low cfg.high (ground arith) in
      ground (arith, remap_centered-IsUnit (clamp raw cfg.low cfg.high) cfg.low center cfg.high)
]

mul-pos : (a b : ℕ) → 0 < a → 0 < b → 0 < a * b
mul-pos a b h k = grind arith

deadband-within : (p n d : ℕ) → n ≤ d → p < 100 → n * 100 - p * d ≤ d * (100 - p)
deadband-within p n d h l = grind arith

apply_deadband-IsUnit :
    (percent : ℕ) (f : Fraction)
    → percent < 100
    → IsUnit f
    → (g : Fraction) × (apply_deadband percent f ≡ some g) × IsUnit g
unfolding apply_deadband
apply_deadband-IsUnit percent f l u = elim (Bool-cases (ltb (f.num * 100) (percent * f.den))) [
  | inl e ↦ (zero_value, rw e refl, record { positive = omega arith; within = omega arith })
  | inr e ↦
      let wider : 0 < f.den * (100 - percent) =
        mul-pos f.den (100 - percent) u.positive (omega arith) in
      (
        record f { num = f.num * 100 - percent * f.den; den = f.den * (100 - percent) },
        rw e (ground arith),
        record { positive = wider; within = deadband-within percent f.num f.den u.within l },
      )
]

-- An axis whose center lies between its ends, and whose deadband is below 100 percent: whatever the
-- gamepad reads, read_inputs divides by no zero, and its value lies between -1 and 1, with or without
-- the deadband.
pub read_axis-IsUnit :
    (with_deadband : Bool) (cfg : AxisConfig) (raw : ℕ)
    → is_ordered cfg ≡ true
    → cfg.deadband < 100
    → (f : Fraction) × (read_axis with_deadband cfg raw ≡ some f) × IsUnit f
unfolding read_axis
read_axis-IsUnit true cfg raw o l =
    apply_deadband-IsUnit cfg.deadband (normalize cfg raw) l (normalize-IsUnit cfg raw o)
read_axis-IsUnit false cfg raw o l = (normalize cfg raw, refl, normalize-IsUnit cfg raw o)
