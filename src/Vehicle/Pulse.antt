-- ===== src/Vehicle/Pulse.antt =====
-- The pulse widths that streamer.py computes: map_range, apply_expo and clamp, the throttle and the
-- steering of a Control message, and the steering's center. An axis value is a sign and a magnitude
-- in millionths; quotients are exact where the source computes with floats. Pulse widths are natural
-- numbers of microseconds, the trim is an integer.
pub mod Bounds
use v3xctrl.Base.{
  ℕ, ◌+◌, ◌-◌, ◌*◌, ◌/◌, min, max, Bool, true, false, not, ◌&&◌, ltb, leb, nat_beq, if◌then◌else◌,
}
use v3xctrl.Base.Bytes.{ℤ, pos, negsuc}

-- 1.0
abbrev pub unit : ℕ
unit = 1000000

pub record Axis : Type 0 where
  pub negative : Bool
  pub magnitude : ℕ

-- The parsed arguments.
pub record Config : Type 0 where
  pub throttle_min : ℕ
  pub throttle_idle : ℕ
  pub throttle_max : ℕ
  pub steering_min : ℕ
  pub steering_max : ℕ
  pub steering_invert : Bool
  pub steering_scale : ℕ
  pub forward_scale : ℕ
  pub reverse_scale : ℕ
  pub forward_boost : ℕ
  pub reverse_boost : ℕ
  pub throttle_expo : ℕ
  pub steering_expo : ℕ
  pub failsafe_throttle : ℕ
  pub failsafe_steering : ℕ

unfoldable pub forward_min : Config → ℕ
forward_min c = c.throttle_idle + c.forward_boost

unfoldable pub reverse_min : Config → ℕ
reverse_min c = c.throttle_idle - c.reverse_boost

-- helper.py: clamp, whose bounds may come in either order.
unfoldable pub clamp : ℕ → ℕ → ℕ → ℕ
clamp raw a b = max (min a b) (min (max a b) raw)

-- helper.py: apply_expo; `power` is the power of a magnitude, by expo.
unfoldable pub apply_expo : (ℕ → ℕ → ℕ) → ℕ → Axis → Axis
apply_expo power expo value =
    if nat_beq expo 0 then value else record value { magnitude = power expo value.magnitude }

-- value * scale / 100.0: the magnitude is over `unit * 100` from here on.
unfoldable pub scaled : Axis → ℕ → Axis
scaled value scale = record value { magnitude = value.magnitude * scale }

abbrev pub full : ℕ
full = 100000000

-- The input ranges: (0, 1), (-1, 0), (-1, 1) and (1, -1).
pub data Range : Type 0 where
  forwards backwards rightwards leftwards : Range

-- (clamped - in_min) / (in_max - in_min), as a numerator over `span`
unfoldable pub span : Range → ℕ
span forwards = full
span backwards = full
span rightwards = full * 2
span leftwards = full * 2

unfoldable pub position : Range → Axis → ℕ
position forwards v = if v.negative then 0 else min full v.magnitude
position backwards v = if v.negative then full - min full v.magnitude else full
position rightwards v =
    if v.negative then full - min full v.magnitude else full + min full v.magnitude
position leftwards v =
    if v.negative then full + min full v.magnitude else full - min full v.magnitude

-- int(low + n / d * (high - low)), towards 0, for n ≤ d
unfoldable pub between : ℕ → ℕ → ℕ → ℕ → ℕ
between n d low high =
    if leb low high then low + n * (high - low) / d else low - (n * (low - high) + (d - 1)) / d

unfoldable pub map_range : Range → Axis → ℕ → ℕ → ℕ
unfolding position span between
map_range range value servo_min servo_max =
    between (position range value) (span range) servo_min servo_max

-- throttle_value of a connected client, for the raw throttle
unfoldable pub throttle_pulse : Config → Axis → ℕ
unfolding map_range scaled forward_min reverse_min
throttle_pulse c raw =
    if nat_beq raw.magnitude 0
    then c.failsafe_throttle
    else if raw.negative
    then map_range backwards (scaled raw c.reverse_scale) c.throttle_min (reverse_min c)
    else map_range forwards (scaled raw c.forward_scale) (forward_min c) c.throttle_max

-- a + b for a pulse width and an integer, 0 if that is negative
unfoldable pub shifted : ℕ → ℤ → ℕ
shifted a (pos n) = a + n
shifted a (negsuc n) = a - (n + 1)

unfoldable pub negated : ℤ → ℤ
negated (negsuc n) = pos (n + 1)
negated (pos n) = if nat_beq n 0 then pos 0 else negsuc (n - 1)

-- steering_value, for the raw steering: the range, the trim's sign, and the clamp
unfoldable pub steering_pulse : Config → ℤ → Axis → ℕ
unfolding map_range scaled shifted negated clamp
steering_pulse c trim raw =
    let range = if c.steering_invert then leftwards else rightwards in
    let value = map_range range (scaled raw c.steering_scale) c.steering_min c.steering_max in
    clamp (shifted value (if c.steering_invert then negated trim else trim)) c.steering_min
      c.steering_max

-- calculate_steering_center
unfoldable pub steering_center : Config → ℤ → ℕ
unfolding shifted
steering_center c trim =
    max c.steering_min (min c.steering_max (shifted ((c.steering_max + c.steering_min) / 2) trim))
