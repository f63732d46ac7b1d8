-- ===== src/Viewer/Frames.antt =====
-- src/v3xctrl_ui/network/video/Receiver.py: the buffer of decoded frames between the decoder, which
-- calls _update_frame, and the render loop, which calls get_frame. Both run under frame_lock. A deque
-- is a list, the oldest first.
pub mod Player
mod Deques
mod Picks
pub mod Pairing
use v3xctrl.Base.{
  ℕ, zero, suc, ◌+◌, ◌-◌, ◌*◌, ◌/◌, Bool, true, false, Option, none, some, List, [], ◌∷◌, ◌++◌,
  length, drop, leb, ◌==◌, nat_eq, if◌then◌else◌,
}

-- append to a deque with a maxlen
abbrev pub append_bounded {ℓ} : {A : Type ℓ} → ℕ → A → List A → List A
append_bounded maxlen x xs = let xs' = xs ++ (x ∷ []) in drop (length xs' - maxlen) xs'

abbrev pub head? {ℓ} : {A : Type ℓ} → List A → Option A
head? [] = none
head? (x ∷ xs) = some x

abbrev pub last? {ℓ} : {A : Type ℓ} → List A → Option A
last? [] = none
last? (x ∷ xs) = elim (last? xs) [ none ↦ some x | some y ↦ some y ]

-- `if o is there, o, else x`
abbrev pub or_else {ℓ} : {A : Type ℓ} → A → Option A → A
or_else x none = x
or_else x (some y) = y

abbrev pub or_keep {ℓ} : {A : Type ℓ} → Option A → Option A → Option A
or_keep old none = old
or_keep old (some y) = some y

abbrev pub max_frame_buffer_size : ℕ
max_frame_buffer_size = 300

abbrev pub timing_log_interval : ℕ
timing_log_interval = 30

pub record Receiver {ℓ} (A : Type ℓ) : Type ℓ where
  pub render_ratio : ℕ
  pub history_size : ℕ
  pub frame : Option A
  pub render_history : List ℕ
  pub frame_receive_history : List ℕ
  pub frame_buffer : List A
  pub timing_enabled : Bool
  pub frame_timestamps : List ℕ
  pub last_displayed_decode_time : Option ℕ
  pub decode_durations : List ℕ
  pub capture_timestamps : List ℕ
  pub timing_decode_samples : List ℕ
  pub timing_buffer_samples : List ℕ
  pub decoded_frame_count : ℕ
  pub rendered_frame_count : ℕ
  pub dropped_burst_frames : ℕ

-- What the three _pick functions return: decode_duration and capture_timestamp_us.
pub record Picked : Type 0 where
  pub decode_duration : Option ℕ
  pub capture_timestamp_us : ℕ

abbrev nothing_picked : Picked
nothing_picked = record { decode_duration = none; capture_timestamp_us = 0 }

-- `max(0, length - target_buffer_size - 1)`; 300 * ratio / 100 is a whole number.
abbrev pub frames_to_drop : ℕ → ℕ → ℕ
frames_to_drop ratio len = len - max_frame_buffer_size * ratio / 100 - 1

module _ {ℓ} {A : Type ℓ} where
  unfoldable pub new_receiver : ℕ → ℕ → Receiver A
  new_receiver render_ratio history_size = record {
    render_ratio = render_ratio;
    history_size = history_size;
    frame = none;
    render_history = [];
    frame_receive_history = [];
    frame_buffer = [];
    timing_enabled = false;
    frame_timestamps = [];
    last_displayed_decode_time = none;
    decode_durations = [];
    capture_timestamps = [];
    timing_decode_samples = [];
    timing_buffer_samples = [];
    decoded_frame_count = 0;
    rendered_frame_count = 0;
    dropped_burst_frames = 0;
  }

  -- the `if self.timing_enabled` part of _pick_oldest_frame and of _pick_adaptive_frame
  unfoldable pub pop_timing : Receiver A → Receiver A × Picked
  pop_timing r =
      if r.timing_enabled
      then (
        record r {
          last_displayed_decode_time =
              or_keep r.last_displayed_decode_time (head? r.frame_timestamps);
          frame_timestamps = drop 1 r.frame_timestamps;
          decode_durations = drop 1 r.decode_durations;
          capture_timestamps = drop 1 r.capture_timestamps;
        },
        record {
          decode_duration = head? r.decode_durations;
          capture_timestamp_us = or_else 0 (head? r.capture_timestamps);
        },
      )
      else (r, nothing_picked)

  -- `self.frame = self.frame_buffer.popleft()`, from a buffer that is not empty
  unfoldable pub pop_frame : Receiver A → Receiver A
  pop_frame r = record r {
    frame = or_keep r.frame (head? r.frame_buffer);
    frame_buffer = drop 1 r.frame_buffer;
  }

  unfoldable pub pick_oldest_frame : Receiver A → Receiver A × Picked
  unfolding pop_timing pop_frame
  pick_oldest_frame r = pop_timing (pop_frame r)

  -- the `if self.timing_enabled` part of _pick_newest_frame
  unfoldable pub pop_newest_timing : Receiver A → Receiver A × Picked
  pop_newest_timing r =
      if r.timing_enabled
      then (
        record r {
          last_displayed_decode_time =
              or_keep r.last_displayed_decode_time (last? r.frame_timestamps);
          frame_timestamps = [];
          decode_durations = [];
          capture_timestamps = [];
        },
        record {
          decode_duration = last? r.decode_durations;
          capture_timestamp_us = or_else 0 (last? r.capture_timestamps);
        },
      )
      else (r, nothing_picked)

  unfoldable pub pick_newest_frame : Receiver A → Receiver A × Picked
  unfolding pop_newest_timing
  pick_newest_frame r =
      let (r', picked) =
        pop_newest_timing (record r { frame = or_keep r.frame (last? r.frame_buffer) }) in
      (
        record r' {
          dropped_burst_frames = r'.dropped_burst_frames + (length r'.frame_buffer - 1);
          frame_buffer = [];
        },
        picked,
      )

  -- one round of `for _ in range(frames_to_drop)`
  unfoldable pub drop_frame : Receiver A → Receiver A
  drop_frame r =
      if r.timing_enabled
      then record r {
        frame_buffer = drop 1 r.frame_buffer;
        frame_timestamps = drop 1 r.frame_timestamps;
        decode_durations = drop 1 r.decode_durations;
        capture_timestamps = drop 1 r.capture_timestamps;
      }
      else record r { frame_buffer = drop 1 r.frame_buffer }

  unfoldable pub drop_frames : ℕ → Receiver A → Receiver A
  drop_frames zero r = r
  drop_frames (suc n) r = drop_frames n (drop_frame r)

  unfoldable pub pick_adaptive_frame : Receiver A → Receiver A × Picked
  unfolding drop_frames pop_timing pop_frame
  pick_adaptive_frame r =
      let n = frames_to_drop r.render_ratio (length r.frame_buffer) in
      pop_timing
        (pop_frame (drop_frames n (record r { dropped_burst_frames = r.dropped_burst_frames + n })))

  unfoldable pub pick_frame : Receiver A → Receiver A × Picked
  unfolding pick_oldest_frame pick_newest_frame pick_adaptive_frame
  pick_frame r =
      if r.render_ratio == 100
      then pick_oldest_frame r
      else if r.render_ratio == 0
      then pick_newest_frame r
      else pick_adaptive_frame r

  -- _log_timing_stats, without the log line: both lists of samples are emptied.
  unfoldable pub log_timing_stats : Receiver A → Receiver A
  log_timing_stats r = record r { timing_decode_samples = []; timing_buffer_samples = [] }

  unfoldable pub add_decode_sample : Option ℕ → Receiver A → Receiver A
  add_decode_sample none r = r
  add_decode_sample (some d) r = record r {
    timing_decode_samples = append_bounded 100 d r.timing_decode_samples;
  }

  -- from `# Track timing` on
  unfoldable pub track_timing : ℕ → Picked → Receiver A → Receiver A
  unfolding add_decode_sample log_timing_stats
  track_timing now picked r =
      if r.timing_enabled
      then elim r.last_displayed_decode_time [
        | none ↦ r
        | some t ↦
            let r' = add_decode_sample picked.decode_duration (record r {
              timing_buffer_samples = append_bounded 100 (now - t) r.timing_buffer_samples;
            }) in
            if leb timing_log_interval (length r'.timing_buffer_samples)
            then log_timing_stats r'
            else r'
      ]
      else r

  -- get_frame where the buffer is not empty
  unfoldable pub render_frame : ℕ → Receiver A → Receiver A
  unfolding track_timing pick_frame
  render_frame now r =
      let (r', picked) =
        pick_frame
          (record r { render_history = append_bounded r.history_size now r.render_history }) in
      let r'' = track_timing now picked r' in
      record r'' { rendered_frame_count = r''.rendered_frame_count + 1 }

  -- The result is the field `frame` that the call leaves.
  unfoldable pub get_frame : ℕ → Receiver A → Receiver A
  get_frame now r = elim r.frame_buffer [ [] ↦ r | f ∷ fs ↦ render_frame now r ]

  unfoldable pub update_frame : ℕ → A → ℕ → ℕ → Receiver A → Receiver A
  update_frame now new_frame decode_duration capture_timestamp_us r =
      let r' = record r {
        frame_buffer = append_bounded max_frame_buffer_size new_frame r.frame_buffer;
        frame_receive_history = append_bounded r.history_size now r.frame_receive_history;
        decoded_frame_count = r.decoded_frame_count + 1;
      } in
      if r.timing_enabled
      then record r' {
        frame_timestamps = append_bounded max_frame_buffer_size now r.frame_timestamps;
        decode_durations = append_bounded max_frame_buffer_size decode_duration r.decode_durations;
        capture_timestamps =
            append_bounded max_frame_buffer_size capture_timestamp_us r.capture_timestamps;
      }
      else r'

  unfoldable pub enable_timing : Bool → Receiver A → Receiver A
  enable_timing enabled r =
      if enabled
      then record r {
        timing_enabled = true;
        timing_decode_samples = [];
        timing_buffer_samples = [];
      }
      else record r { timing_enabled = false }
