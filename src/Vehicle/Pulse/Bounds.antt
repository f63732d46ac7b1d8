-- ===== src/Vehicle/Pulse/Bounds.antt =====
-- Pulses stay in the ranges that the configuration gives.
use native.Mathlib.Nat.{div-add-mod', mul-le-mul_right}
use v3xctrl.Base.{ℕ, ◌+◌, ◌-◌, ◌*◌, ◌/◌, ◌≤◌, ◌<◌, arith}
use v3xctrl.Base.Bytes.{ℤ}
use v3xctrl.Vehicle.Pulse.{
  Axis, Config, forward_min, reverse_min, clamp, scaled, Range, forwards, backwards, rightwards,
  leftwards, span, position, between, map_range, throttle_pulse, steering_pulse, steering_center,
}

-- The arguments make sense: the throttle's points are in order, and the failsafe lies within.
pub record IsSensible (c : Config) : Type 0 where
  pub steering : c.steering_min ≤ c.steering_max
  pub steering_failsafe :
      (c.steering_min ≤ c.failsafe_steering) × (c.failsafe_steering ≤ c.steering_max)
  pub throttle_failsafe :
      (c.throttle_min ≤ c.failsafe_throttle) × (c.failsafe_throttle ≤ c.throttle_max)
  pub backward : c.throttle_min + c.reverse_boost ≤ c.throttle_idle
  pub forward : c.throttle_idle + c.forward_boost ≤ c.throttle_max

div-times-le : (n d h : ℕ) → 0 < d → n ≤ d → n * h / d ≤ h
div-times-le n d h p l =
    let whole = div-add-mod' (n * h) d in let less = mul-le-mul_right h l in grind arith

between-bounds :
    (n d low high : ℕ)
    → 0 < d
    → n ≤ d
    → low ≤ high
    → (low ≤ between n d low high) × (between n d low high ≤ high)
unfolding between
between-bounds n d low high p l h = ground (arith, div-times-le n d (high - low) p l)

position-le-span : (r : Range) (v : Axis) → position r v ≤ span r
unfolding position span
position-le-span forwards v = ground arith
position-le-span backwards v = ground arith
position-le-span rightwards v = ground arith
position-le-span leftwards v = ground arith

span_pos : (r : Range) → 0 < span r
unfolding span
span_pos forwards = omega arith
span_pos backwards = omega arith
span_pos rightwards = omega arith
span_pos leftwards = omega arith

pub map_range-bounds :
    (r : Range) (v : Axis) (low high : ℕ)
    → low ≤ high
    → (low ≤ map_range r v low high) × (map_range r v low high ≤ high)
unfolding map_range
map_range-bounds r v low high h =
    between-bounds (position r v) (span r) low high (span_pos r) (position-le-span r v) h

pub throttle_pulse-bounds :
    (c : Config) (raw : Axis)
    → IsSensible c
    → (c.throttle_min ≤ throttle_pulse c raw) × (throttle_pulse c raw ≤ c.throttle_max)
unfolding throttle_pulse forward_min reverse_min
throttle_pulse-bounds c raw s = ground (
  arith,
  map_range-bounds backwards (scaled raw c.reverse_scale) c.throttle_min (reverse_min c),
  map_range-bounds forwards (scaled raw c.forward_scale) (forward_min c) c.throttle_max,
)

pub clamp-bounds : (x a b : ℕ) → a ≤ b → (a ≤ clamp x a b) × (clamp x a b ≤ b)
unfolding clamp
clamp-bounds x a b h = (omega arith, omega arith)

pub steering_pulse-bounds :
    (c : Config) (trim : ℤ) (raw : Axis)
    → c.steering_min ≤ c.steering_max
    → (c.steering_min ≤ steering_pulse c trim raw) × (steering_pulse c trim raw ≤ c.steering_max)
unfolding steering_pulse
steering_pulse-bounds c trim raw h = clamp-bounds _ c.steering_min c.steering_max h

pub steering_center-bounds :
    (c : Config) (trim : ℤ)
    → c.steering_min ≤ c.steering_max
    → (c.steering_min ≤ steering_center c trim) × (steering_center c trim ≤ c.steering_max)
unfolding steering_center
steering_center-bounds c trim h = (omega arith, omega arith)
