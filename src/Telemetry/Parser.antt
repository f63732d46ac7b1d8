-- ===== src/Telemetry/Parser.antt =====
-- src/v3xctrl_ui/core/TelemetryParser.py, over the payload of src/v3xctrl_telemetry/dataclasses.py. A
-- formatted text is a value of a type with a constructor for each form; `gst`, `svc`, `vc`, `cur` and
-- `loc` may be missing from the message, and the other keys are there.
use v3xctrl.Base.{
  ℕ, ◌/◌, ◌%◌, ◌^◌, leb, ◌==◌, nat_eq, Bool, String, Option, none, some, if◌then◌else◌,
}
use v3xctrl.Base.Bytes.{ℤ, pos, negsuc}
use v3xctrl.Telemetry.Flags.{test_bit}
use v3xctrl.Telemetry.Context.{
  GpsFixType, no_hardware, no_fix, dead_reckoning, fix_2d, fix_3d, gnss_dead_reckoning,
}

pub data CellId : Type 0 where
  unknown : CellId
  known : ℕ → CellId

pub record Location : Type 0 where
  pub fix_type : ℤ
  pub speed : ℕ
  pub satellites : ℕ

pub record Values : Type 0 where
  pub rsrq : ℤ
  pub rsrp : ℤ
  pub band : String
  pub cell_id : CellId
  pub vol : ℕ
  pub avg : ℕ
  pub pct : ℕ
  pub wrn : Bool
  pub cur : Option ℕ
  pub loc : Option Location
  pub gst : Option ℕ
  pub svc : Option ℕ
  pub vc : Option ℕ

-- "CELL ?", or the tower's and the section's number
pub data CellText : Type 0 where
  cell_unknown : CellText
  tower_section : ℕ → ℕ → CellText

-- `f"{n}mA"`, and `f"{n / 1000:.2f}A"` of n milliamperes
pub data CurrentText : Type 0 where
  milliamperes : ℕ → CurrentText
  amperes : ℕ → CurrentText

-- A voltage is in millivolts, and its text is "%.2fV" of a thousandth of it.
pub record TelemetryData : Type 0 where
  pub rsrq : ℤ
  pub rsrp : ℤ
  pub signal_band : String
  pub signal_cell : CellText
  pub battery_icon : ℕ
  pub battery_voltage : ℕ
  pub battery_average_voltage : ℕ
  pub battery_percent : ℕ
  pub battery_current : CurrentText
  pub battery_warning : Bool
  pub gps_fix_type : GpsFixType
  pub gps_speed : ℕ
  pub gps_satellites : ℕ
  pub recording : Bool
  pub service_video : Bool
  pub service_debug : Bool
  pub vc_current_flags : ℕ
  pub vc_history_flags : ℕ

-- `tower_id = cell_id >> 8`, `section_id = cell_id & 0xFF`
unfoldable pub cell_text : CellId → CellText
cell_text unknown = cell_unknown
cell_text (known cell_id) = tower_section (cell_id / 2 ^ 8) (cell_id % 256)

unfoldable pub current_text : ℕ → CurrentText
current_text n = if leb 1000 n then amperes n else milliamperes n

-- `values.get(key, 0)`
abbrev pub or_zero : Option ℕ → ℕ
or_zero none = 0
or_zero (some n) = n

-- `GpsFixType(n)`: a ValueError for a number that is no fix type.
abbrev fix_type_of : ℕ → Option GpsFixType
fix_type_of n =
    if n == 0
    then some no_fix
    else if n == 1
    then some dead_reckoning
    else if n == 2
    then some fix_2d
    else if n == 3
    then some fix_3d
    else if n == 4
    then some gnss_dead_reckoning
    else none

unfoldable pub parse_fix_type : ℤ → Option GpsFixType
parse_fix_type (pos n) = fix_type_of n
parse_fix_type (negsuc n) = if n == 0 then some no_hardware else none

abbrev pub no_location : Location
no_location = record { fix_type = negsuc 0; speed = 0; satellites = 0 }

abbrev pub location_of : Option Location → Location
location_of none = no_location
location_of (some l) = l

-- `none` is the ValueError of an unknown fix type.
unfoldable pub parse_telemetry : Values → Option TelemetryData
unfolding cell_text current_text
parse_telemetry v = elim (parse_fix_type (location_of v.loc).fix_type) [
  | none ↦ none
  | some fix ↦ some (record {
    rsrq = v.rsrq;
    rsrp = v.rsrp;
    signal_band = v.band;
    signal_cell = cell_text v.cell_id;
    battery_icon = v.pct;
    battery_voltage = v.vol;
    battery_average_voltage = v.avg;
    battery_percent = v.pct;
    battery_current = current_text (or_zero v.cur);
    battery_warning = v.wrn;
    gps_fix_type = fix;
    gps_speed = (location_of v.loc).speed;
    gps_satellites = (location_of v.loc).satellites;
    recording = test_bit 0 (or_zero v.gst);
    service_video = test_bit 0 (or_zero v.svc);
    service_debug = test_bit 1 (or_zero v.svc);
    vc_current_flags = or_zero v.vc % 16;
    vc_history_flags = or_zero v.vc / 2 ^ 4 % 16;
  })
]
