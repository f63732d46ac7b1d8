-- ===== src/Telemetry/Examples.antt =====
-- Telemetry at concrete inputs.
use v3xctrl.Base.{◌≡◌, refl, true, false, some}
use v3xctrl.Base.Bytes.{pos, negsuc}
use v3xctrl.Telemetry.Flags.{
  GstFlags, ServiceFlags, VideoCoreFlags, gst_to_byte, service_to_byte, to_nibble,
  video_core_to_byte, no_throttle_flags,
}
use v3xctrl.Telemetry.Context.{new_context, get_services, get_gst, get_videocore, no_fix}
use v3xctrl.Telemetry.Parser.{
  Values, TelemetryData, known, parse_telemetry, tower_section, amperes, parse_fix_type,
}
use v3xctrl.Telemetry.Agreement.{update_flags, update_flags-gets, parse_telemetry-flags}

-- The video service and the reverse shell run; the debug service does not.
abbrev services : ServiceFlags
services = record { video = true; reverse_shell = true; debug = false }

abbrev gst : GstFlags
gst = record { recording = true; udp_overrun = false }

abbrev hot : VideoCoreFlags
hot = record {
  current = record no_throttle_flags { throttled = true };
  history = record no_throttle_flags { undervolt = true; throttled = true };
}

abbrev values : Values
values = record {
  rsrq = negsuc 10;
  rsrp = negsuc 90;
  band = "20";
  cell_id = known 0x1234;
  vol = 12400;
  avg = 4133;
  pct = 80;
  wrn = false;
  cur = some 1500;
  loc = some (record { fix_type = pos 0; speed = 0; satellites = 3 });
  gst = some 1;
  svc = some 3;
  vc = some 0x54;
}

abbrev parsed : TelemetryData
parsed = record {
  rsrq = negsuc 10;
  rsrp = negsuc 90;
  signal_band = "20";
  signal_cell = tower_section 0x12 0x34;
  battery_icon = 80;
  battery_voltage = 12400;
  battery_average_voltage = 4133;
  battery_percent = 80;
  battery_current = amperes 1500;
  battery_warning = false;
  gps_fix_type = no_fix;
  gps_speed = 0;
  gps_satellites = 3;
  recording = true;
  service_video = true;
  service_debug = true;
  vc_current_flags = 4;
  vc_history_flags = 5;
}

is_parsed : parse_telemetry values ≡ some parsed
unfolding parse_telemetry parse_fix_type
is_parsed = refl

update_flags-gets_example :
    let c =
      update_flags
        (service_to_byte services)
        (gst_to_byte gst)
        (video_core_to_byte hot)
        new_context in
    (get_services c ≡ services) × (get_gst c ≡ gst) × (get_videocore c ≡ hot)
update_flags-gets_example = update_flags-gets services gst hot new_context

parse_telemetry-flags_example :
    (parsed.recording ≡ true)
    × (parsed.service_video ≡ true)
    × (parsed.service_debug ≡ services.reverse_shell)
    × (parsed.vc_current_flags ≡ to_nibble hot.current)
    × (parsed.vc_history_flags ≡ to_nibble hot.history)
unfolding service_to_byte gst_to_byte video_core_to_byte
parse_telemetry-flags_example =
    parse_telemetry-flags services gst hot values parsed refl refl refl is_parsed
