-- ===== src/Telemetry/Battery.antt =====
-- INA.py and BatteryTelemetry.py: the registers of the power sensor, and the state of the battery. A
-- word is 16 bits wide on the bus. Quotients of integers are exact here, where the source divides
-- floats and rounds; the factors 1.25 and 2.5 are fractions.
pub mod Percent
use v3xctrl.Base.{
  ℕ, ◌+◌, ◌-◌, ◌*◌, ◌/◌, ◌%◌, ◌^◌, min, max, Bool, true, false, Option, none, some, ltb, leb,
  nat_beq, nat_eq, if◌then◌else◌,
}
use v3xctrl.Base.Dict.{Dict, get, put}

pub data Register : Type 0 where
  config shunt_voltage bus_voltage power current calibration : Register

unfoldable pub register_code : Register → ℕ
register_code config = 0x00
register_code shunt_voltage = 0x01
register_code bus_voltage = 0x02
register_code power = 0x03
register_code current = 0x04
register_code calibration = 0x05

-- ((value & 0xFF) << 8) | ((value >> 8) & 0xFF)
unfoldable pub swap_bytes : ℕ → ℕ
swap_bytes value = value % 256 * 256 + value / 256 % 256

-- The words that the chip holds, by register, as the bus carries them.
abbrev pub Bus : Type 0
Bus = Dict ℕ ℕ

-- `none` is the OSError of the bus.
unfoldable pub read_register : Register → Bus → Option ℕ
unfolding swap_bytes register_code
read_register register bus = elim (get (register_code register) bus) [
  | none ↦ none
  | some raw ↦ some (swap_bytes raw)
]

unfoldable pub write_register : Register → ℕ → Bus → Bus
unfolding swap_bytes register_code
write_register register value bus = put (register_code register) (swap_bytes value) bus

-- int(raw * 1.25), in mV
unfoldable pub get_bus_voltage : Bus → Option ℕ
unfolding read_register
get_bus_voltage bus = elim (read_register bus_voltage bus) [
  | none ↦ none
  | some raw ↦ some (raw * 5 / 4)
]

-- int(raw * 2.5), in uV
unfoldable pub get_shunt_voltage : Bus → Option ℕ
unfolding read_register
get_shunt_voltage bus = elim (read_register shunt_voltage bus) [
  | none ↦ none
  | some raw ↦ some (raw * 5 / 2)
]

-- round(a / b): to the nearest, and to the even one of two.
unfoldable pub round_quotient : ℕ → ℕ → ℕ
round_quotient a b =
    let q = a / b in
    let r = a % b * 2 in
    if ltb r b then q else if ltb b r then q + 1 else if nat_beq (q % 2) 0 then q else q + 1

pub record Battery : Type 0 where
  pub min_cell_voltage : ℕ
  pub max_cell_voltage : ℕ
  pub warn_cell_voltage : ℕ
  pub voltage : ℕ
  pub average_voltage : ℕ
  pub percentage : ℕ
  pub warning : Bool
  pub cell_count : ℕ
  pub current : ℕ

-- max(round(voltage / ((min + max) / 2)), 1)
unfoldable pub guess_cell_count : ℕ → ℕ → ℕ → ℕ
unfolding round_quotient
guess_cell_count min_cell max_cell voltage =
    max (round_quotient (voltage * 2) (min_cell + max_cell)) 1

-- BatteryTelemetry.__init__, at the voltage that the sensor reads
unfoldable pub new_battery : ℕ → ℕ → ℕ → ℕ → Battery
unfolding guess_cell_count
new_battery min_cell max_cell warn_cell voltage = record {
  min_cell_voltage = min_cell;
  max_cell_voltage = max_cell;
  warn_cell_voltage = warn_cell;
  voltage = 0;
  average_voltage = 0;
  percentage = 100;
  warning = false;
  cell_count = guess_cell_count min_cell max_cell voltage;
  current = 0;
}

-- int(clamp(round((voltage - low) / (high - low) * 100), 0, 100)): below `low` the quotient is
-- negative, and the clamp gives 0.
unfoldable pub percent : ℕ → ℕ → ℕ → ℕ
unfolding round_quotient
percent low high voltage =
    if ltb voltage low then 0 else min 100 (round_quotient ((voltage - low) * 100) (high - low))

-- update, at the voltage in mV and the current in uA that the sensor reads
unfoldable pub update : ℕ → ℕ → Battery → Battery
unfolding percent round_quotient
update mv ua b = record b {
  voltage = mv;
  average_voltage = round_quotient mv b.cell_count;
  current = ua / 1000;
  percentage = percent (b.min_cell_voltage * b.cell_count) (b.max_cell_voltage * b.cell_count) mv;
  warning = leb mv (b.warn_cell_voltage * b.cell_count);
}
