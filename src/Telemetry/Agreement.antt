-- ===== src/Telemetry/Agreement.antt =====
-- What the viewer reads of the flag bytes that the streamer packs.
use v3xctrl.Base.{ℕ, ◌%◌, ◌/◌, ◌≡◌, refl, some, arith}
use v3xctrl.Telemetry.Flags.{
  GstFlags, ServiceFlags, VideoCoreFlags, gst_to_byte, service_to_byte, video_core_to_byte,
  video_core_from_byte, to_nibble, gst_from_byte-to_byte, service_from_byte-to_byte,
  from_nibble-to_nibble, to_nibble-lt,
}
use v3xctrl.Telemetry.Context.{
  TelemetryContext, update_services, update_gst, update_videocore, get_services, get_gst,
  get_videocore,
}
use v3xctrl.Telemetry.Parser.{Values, TelemetryData, parse_telemetry}

-- The two nibbles of the byte are those of the two parts.
video_core_nibbles :
    (f : VideoCoreFlags)
    → (video_core_to_byte f % 16 ≡ to_nibble f.current)
      × (video_core_to_byte f / 16 % 16 ≡ to_nibble f.history)
unfolding video_core_to_byte
video_core_nibbles f = omega (arith, to_nibble-lt f.current, to_nibble-lt f.history)

pub video_core_from_byte-to_byte :
    (f : VideoCoreFlags) → video_core_from_byte (video_core_to_byte f) ≡ f
unfolding video_core_from_byte
video_core_from_byte-to_byte f =
    rw ((video_core_nibbles f).0, (video_core_nibbles f).1)
      (rw (from_nibble-to_nibble f.current, from_nibble-to_nibble f.history) refl)

-- The three flag bytes of one telemetry message, as the viewer takes them in.
pub update_flags : ℕ → ℕ → ℕ → TelemetryContext → TelemetryContext
update_flags svc gst vc c = update_videocore vc (update_gst gst (update_services svc c))

-- The flags that the streamer packs into the three bytes are those that the viewer's context
-- gives after it was updated with the bytes, whatever it held before.
pub update_flags-gets :
    (s : ServiceFlags) (g : GstFlags) (v : VideoCoreFlags) (c : TelemetryContext)
    → let c' = update_flags (service_to_byte s) (gst_to_byte g) (video_core_to_byte v) c in
      (get_services c' ≡ s) × (get_gst c' ≡ g) × (get_videocore c' ≡ v)
unfolding update_flags update_services update_gst update_videocore get_services get_gst
    get_videocore
update_flags-gets s g v c =
    (service_from_byte-to_byte s, gst_from_byte-to_byte g, video_core_from_byte-to_byte v)

-- A message with the bytes of three sets of flags that is parsed: the recording flag, the video
-- service and the two nibbles are those that were packed, and what is called the debug service is the
-- flag of the reverse shell.
pub parse_telemetry-flags :
    (s : ServiceFlags) (g : GstFlags) (f : VideoCoreFlags) (v : Values) (d : TelemetryData)
    → v.svc ≡ some (service_to_byte s)
    → v.gst ≡ some (gst_to_byte g)
    → v.vc ≡ some (video_core_to_byte f)
    → parse_telemetry v ≡ some d
    → (d.recording ≡ g.recording)
      × (d.service_video ≡ s.video)
      × (d.service_debug ≡ s.reverse_shell)
      × (d.vc_current_flags ≡ to_nibble f.current)
      × (d.vc_history_flags ≡ to_nibble f.history)
unfolding parse_telemetry service_to_byte gst_to_byte
parse_telemetry-flags s g f v d hs hg hf h = ground (arith, video_core_nibbles f)
