-- ===== src/Video/Timer.antt =====
-- v3xctrl_gst/PipelineTimer.py. Times are in milliseconds, the unit of the statistics; the capture
-- delay, which the pipeline's clock gives, is an argument. The log line itself is left out.
pub mod Balance
use v3xctrl.Base.{
  ℕ, ◌+◌, ◌-◌, Bool, true, false, not, Option, none, some, List, [], ◌∷◌, ◌++◌, ltb, leb, keep_if,
  if◌then◌else◌, nat_eq,
}
use v3xctrl.Base.Dict.{Dict, get, put, pop}

-- the entry of a frame
pub record Timing : Type 0 where
  pub source : ℕ
  pub capture_delay : ℕ
  pub capsfilter : Option ℕ
  pub encoder : Option ℕ
  pub payloader_in : Option ℕ

pub record Stats : Type 0 where
  pub capture : List ℕ
  pub capsfilter : List ℕ
  pub encode : List ℕ
  pub package_times : List ℕ
  pub payloader : List ℕ

pub record Debug : Type 0 where
  pub source_probe : ℕ
  pub capsfilter_probe : ℕ
  pub capsfilter_miss : ℕ
  pub encoder_probe : ℕ
  pub encoder_miss : ℕ
  pub udp_probe : ℕ
  pub udp_miss : ℕ
  pub incomplete : ℕ

pub record Timer : Type 0 where
  pub enabled : Bool
  pub log_interval : ℕ
  pub last_log : ℕ
  pub frames : Dict ℕ Timing
  pub stats : Stats
  pub debug : Debug

-- _empty_stats
abbrev pub empty_stats : Stats
empty_stats = record {
  capture = [];
  capsfilter = [];
  encode = [];
  package_times = [];
  payloader = [];
}

-- _empty_debug
abbrev pub empty_debug : Debug
empty_debug = record {
  source_probe = 0;
  capsfilter_probe = 0;
  capsfilter_miss = 0;
  encoder_probe = 0;
  encoder_miss = 0;
  udp_probe = 0;
  udp_miss = 0;
  incomplete = 0;
}

-- PipelineTimer(log_interval)
unfoldable pub new_timer : ℕ → Timer
new_timer log_interval = record {
  enabled = false;
  log_interval = log_interval;
  last_log = 0;
  frames = [];
  stats = empty_stats;
  debug = empty_debug;
}

unfoldable pub enable : ℕ → Timer → Timer
enable now t = record t {
  enabled = true;
  frames = [];
  stats = empty_stats;
  debug = empty_debug;
  last_log = now;
}

unfoldable pub disable : Timer → Timer
disable t = record t { enabled = false }

unfoldable pub on_source_buffer : ℕ → ℕ → ℕ → Timer → Timer
on_source_buffer now capture_delay pts t =
    if t.enabled
    then record t {
      debug = record (t.debug) { source_probe = t.debug.source_probe + 1 };
      frames =
          put pts
            (record {
              source = now;
              capture_delay = capture_delay;
              capsfilter = none;
              encoder = none;
              payloader_in = none;
            })
            t.frames;
    }
    else t

unfoldable pub on_capsfilter_buffer : ℕ → ℕ → Timer → Timer
on_capsfilter_buffer now pts t =
    let d = record (t.debug) { capsfilter_probe = t.debug.capsfilter_probe + 1 } in
    let seen : Timer = elim (get pts t.frames) [
      | none ↦ record t { debug = record d { capsfilter_miss = d.capsfilter_miss + 1 } }
      | some timing ↦ record t {
        debug = d;
        frames = put pts (record timing { capsfilter = some now }) t.frames;
      }
    ] in
    if t.enabled then seen else t

unfoldable pub on_encoder_buffer : ℕ → ℕ → Timer → Timer
on_encoder_buffer now pts t =
    let d = record (t.debug) { encoder_probe = t.debug.encoder_probe + 1 } in
    let seen : Timer = elim (get pts t.frames) [
      | none ↦ record t { debug = record d { encoder_miss = d.encoder_miss + 1 } }
      | some timing ↦ record t {
        debug = d;
        frames = put pts (record timing { encoder = some now }) t.frames;
      }
    ] in
    if t.enabled then seen else t

-- `source` is always in an entry.
unfoldable pub payload_seen : ℕ → ℕ → Timing → Option ℕ → Option ℕ → Timer → Timer
payload_seen now pts timing (some capsfilter) (some encoder) t = record t {
  frames = put pts (record timing { payloader_in = some now }) t.frames;
}
payload_seen now pts timing _ _ t = record t {
  debug = record (t.debug) { incomplete = t.debug.incomplete + 1 };
}

unfoldable pub on_payloader_in : ℕ → ℕ → Timer → Timer
unfolding payload_seen
on_payloader_in now pts t =
    let seen : Timer = elim (get pts t.frames) [
      | none ↦ record t { debug = record (t.debug) { udp_miss = t.debug.udp_miss + 1 } }
      | some timing ↦
          payload_seen now pts timing timing.capsfilter timing.encoder
            (record t { debug = record (t.debug) { udp_probe = t.debug.udp_probe + 1 } })
    ] in
    if t.enabled then seen else t

-- _log_stats, but for the line that it writes
unfoldable pub log_stats : Timer → Timer
log_stats t = elim t.stats.capture [
  | [] ↦ t
  | c ∷ cs ↦ record t { stats = empty_stats; debug = empty_debug }
]

-- `for k in stale`: the entries of the frames before this one
unfoldable pub purge : ℕ → Timer → Timer
purge pts t = record t { frames = keep_if (λ p. leb pts p.0) t.frames }

unfoldable pub log_if_due : ℕ → Timer → Timer
unfolding log_stats
log_if_due now t =
    if leb (t.last_log + t.log_interval) now then record (log_stats t) { last_log = now } else t

unfoldable pub record_frame : ℕ → ℕ → Timing → ℕ → ℕ → ℕ → Timer → Timer
unfolding log_if_due purge
record_frame now pts timing capsfilter encoder payloader_in t = purge pts (
    log_if_due now (record t {
      frames = pop pts t.frames;
      stats = record {
        capture = t.stats.capture ++ (timing.capture_delay ∷ []);
        capsfilter = t.stats.capsfilter ++ ((capsfilter - timing.source) ∷ []);
        encode = t.stats.encode ++ ((encoder - capsfilter) ∷ []);
        package_times = t.stats.package_times ++ ((payloader_in - encoder) ∷ []);
        payloader = t.stats.payloader ++ ((now - payloader_in) ∷ []);
      };
    }))

-- With `payloader_in` the other three are there; without it the frame is passed over.
unfoldable pub sink_seen : ℕ → ℕ → Timing → Option ℕ → Option ℕ → Option ℕ → Timer → Timer
unfolding record_frame
sink_seen now pts timing (some capsfilter) (some encoder) (some payloader_in) t =
    record_frame now pts timing capsfilter encoder payloader_in t
sink_seen now pts timing _ _ _ t = t

unfoldable pub on_udpsink_buffer_list : ℕ → ℕ → Timer → Timer
unfolding sink_seen
on_udpsink_buffer_list now pts t =
    let seen : Timer = elim (get pts t.frames) [
      | none ↦ t
      | some timing ↦
          sink_seen now pts timing timing.capsfilter timing.encoder timing.payloader_in t
    ] in
    if t.enabled then seen else t
