-- ===== src/Telemetry/Battery/Percent.antt =====
-- What the sensor's registers give back, and the battery's percentage.
use v3xctrl.Base.{
  ℕ, ◌+◌, ◌-◌, ◌*◌, ◌/◌, ◌%◌, ◌≤◌, ◌<◌, ◌≡◌, some, ltb, nat_beq, nat_eq, if◌then◌else◌, arith,
}
use native.Mathlib.Nat.{div-add-mod'}
use v3xctrl.Base.Dict.{get-put_self}
use v3xctrl.Telemetry.Battery.{
  Register, register_code, swap_bytes, Bus, read_register, write_register, round_quotient, percent,
}

swap_bytes-swap_bytes : (n : ℕ) → swap_bytes (swap_bytes n) ≡ n % 65536
unfolding swap_bytes
swap_bytes-swap_bytes n = omega arith

-- A value that was written to a register is read back from it, as far as it fits 16 bits.
pub read_register-write_register :
    (r : Register) (n : ℕ) (bus : Bus) → read_register r (write_register r n bus) ≡ some (n % 65536)
unfolding read_register write_register
read_register-write_register r n bus =
    ground (arith, get-put_self (register_code r) (swap_bytes n) bus, swap_bytes-swap_bytes n)

rounded : ℕ → ℕ → ℕ → ℕ
rounded q r b =
    if ltb r b then q else if ltb b r then q + 1 else if nat_beq (q % 2) 0 then q else q + 1

rounded-near :
    (q r b : ℕ)
    → r < b
    → ((q * b + r) * 2 ≤ rounded q (r * 2) b * b * 2 + b)
      × (rounded q (r * 2) b * b * 2 ≤ (q * b + r) * 2 + b)
unfolding rounded
rounded-near q r b h = let next : (q + 1) * b ≡ q * b + b = grind arith in ground (arith, next)

round_quotient-near :
    (a b : ℕ)
    → 0 < b
    → (a * 2 ≤ round_quotient a b * b * 2 + b) × (round_quotient a b * b * 2 ≤ a * 2 + b)
unfolding round_quotient rounded
round_quotient-near a b h =
    let (lower, upper) = rounded-near (a / b) (a % b) b (omega arith) in
    (rw (div-add-mod' a b) at lower, rw (div-add-mod' a b) at upper)

times_mono : (m n b : ℕ) → m ≤ n → m * b ≤ n * b
times_mono m n b h = grind arith

-- For a voltage between the empty and the full one, the percentage is at most 100 and is the nearest
-- to the part of the way: its distance from (voltage - low) * 100 / (high - low) is at most a half.
pub percent-near :
    (low high voltage : ℕ)
    → low < high
    → low ≤ voltage
    → voltage ≤ high
    → (percent low high voltage ≤ 100)
      × ((voltage - low) * 200 ≤ percent low high voltage * (high - low) * 2 + (high - low))
      × (percent low high voltage * (high - low) * 2 ≤ (voltage - low) * 200 + (high - low))
unfolding percent
percent-near low high voltage h l u =
    let q = round_quotient ((voltage - low) * 100) (high - low) in
    let (lower, upper) = round_quotient-near ((voltage - low) * 100) (high - low) (omega arith) in
    let small : q ≤ 100 = ground (arith, times_mono 101 q (high - low)) in
    ground (arith, lower, upper, small)
