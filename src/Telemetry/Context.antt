-- ===== src/Telemetry/Context.antt =====
-- src/v3xctrl_ui/core/TelemetryContext.py with the data classes of src/v3xctrl_ui/core/dataclasses.py:
-- each method is one step under the lock. A text is a `String`, and a speed a number of some unit.
use v3xctrl.Base.{ℕ, Bool, false, String}
use v3xctrl.Base.Bytes.{ℤ, negsuc}
use v3xctrl.Telemetry.Flags.{
  GstFlags, ServiceFlags, ThrottleFlags, VideoCoreFlags, no_gst_flags, no_service_flags,
  no_video_core_flags, gst_from_byte, service_from_byte, video_core_from_byte,
}

pub data GpsFixType : Type 0 where
  no_hardware no_fix dead_reckoning fix_2d fix_3d gnss_dead_reckoning : GpsFixType

pub record BatteryData : Type 0 where
  pub icon : ℕ
  pub voltage : String
  pub average_voltage : String
  pub percent : String
  pub current : String
  pub warning : Bool

pub record SignalData : Type 0 where
  pub rsrq : ℤ
  pub rsrp : ℤ
  pub band : String
  pub cell : String

pub record GpsData : Type 0 where
  pub fix_type : GpsFixType
  pub speed : ℕ
  pub satellites : String

pub record TelemetryContext : Type 0 where
  pub services : ServiceFlags
  pub gst : GstFlags
  pub videocore : VideoCoreFlags
  pub battery : BatteryData
  pub signal : SignalData
  pub gps : GpsData

abbrev pub no_battery : BatteryData
no_battery = record {
  icon = 0;
  voltage = "0.00V";
  average_voltage = "0.00V";
  percent = "0%";
  current = "0mA";
  warning = false;
}

abbrev pub no_signal : SignalData
no_signal = record { rsrq = negsuc 0; rsrp = negsuc 0; band = "BAND ?"; cell = "CELL ?" }

abbrev pub no_gps : GpsData
no_gps = record { fix_type = no_hardware; speed = 0; satellites = "0 SAT" }

unfoldable pub new_context : TelemetryContext
new_context = record {
  services = no_service_flags;
  gst = no_gst_flags;
  videocore = no_video_core_flags;
  battery = no_battery;
  signal = no_signal;
  gps = no_gps;
}

unfoldable pub update_services : ℕ → TelemetryContext → TelemetryContext
update_services byte_value c = record c { services = service_from_byte byte_value }

unfoldable pub update_gst : ℕ → TelemetryContext → TelemetryContext
update_gst byte_value c = record c { gst = gst_from_byte byte_value }

unfoldable pub update_videocore : ℕ → TelemetryContext → TelemetryContext
update_videocore byte_value c = record c { videocore = video_core_from_byte byte_value }

unfoldable pub update_signal_quality : ℤ → ℤ → TelemetryContext → TelemetryContext
update_signal_quality rsrq rsrp c = record c {
  signal = record (c.signal) { rsrq = rsrq; rsrp = rsrp };
}

unfoldable pub update_signal_band : String → TelemetryContext → TelemetryContext
update_signal_band band c = record c { signal = record (c.signal) { band = band } }

unfoldable pub update_signal_cell : String → TelemetryContext → TelemetryContext
update_signal_cell cell c = record c { signal = record (c.signal) { cell = cell } }

unfoldable pub update_gps : GpsFixType → ℕ → String → TelemetryContext → TelemetryContext
update_gps fix_type speed satellites c = record c {
  gps = record { fix_type = fix_type; speed = speed; satellites = satellites };
}

unfoldable pub update_battery :
    ℕ → String → String → String → String → Bool → TelemetryContext → TelemetryContext
update_battery icon voltage average_voltage percent current warning c = record c {
  battery = record {
    icon = icon;
    voltage = voltage;
    average_voltage = average_voltage;
    percent = percent;
    current = current;
    warning = warning;
  };
}

-- The getters copy the parts field by field.
unfoldable pub get_services : TelemetryContext → ServiceFlags
get_services c = record {
  video = c.services.video;
  reverse_shell = c.services.reverse_shell;
  debug = c.services.debug;
}

unfoldable pub get_gst : TelemetryContext → GstFlags
get_gst c = record { recording = c.gst.recording; udp_overrun = c.gst.udp_overrun }

abbrev copy_throttle : ThrottleFlags → ThrottleFlags
copy_throttle f = record {
  undervolt = f.undervolt;
  freq_capped = f.freq_capped;
  throttled = f.throttled;
  soft_temp_limit = f.soft_temp_limit;
}

unfoldable pub get_videocore : TelemetryContext → VideoCoreFlags
get_videocore c = record {
  current = copy_throttle c.videocore.current;
  history = copy_throttle c.videocore.history;
}

unfoldable pub get_signal : TelemetryContext → SignalData
get_signal c = record {
  rsrq = c.signal.rsrq;
  rsrp = c.signal.rsrp;
  band = c.signal.band;
  cell = c.signal.cell;
}

unfoldable pub get_gps : TelemetryContext → GpsData
get_gps c = record { fix_type = c.gps.fix_type; speed = c.gps.speed; satellites = c.gps.satellites }

unfoldable pub get_battery : TelemetryContext → BatteryData
get_battery c = record {
  icon = c.battery.icon;
  voltage = c.battery.voltage;
  average_voltage = c.battery.average_voltage;
  percent = c.battery.percent;
  current = c.battery.current;
  warning = c.battery.warning;
}

unfoldable pub reset : TelemetryContext → TelemetryContext
unfolding new_context
reset c = new_context
