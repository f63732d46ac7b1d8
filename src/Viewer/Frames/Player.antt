-- ===== src/Viewer/Frames/Player.antt =====
-- The reference for the frame buffer: one queue of entries, each a frame with its times.
use v3xctrl.Base.{
  ℕ, ◌≡◌, true, Option, none, some, List, [], ◌∷◌, map, length, drop, ◌==◌, nat_eq, if◌then◌else◌,
}
use v3xctrl.Viewer.Frames.{
  append_bounded, head?, last?, or_keep, max_frame_buffer_size, frames_to_drop, Receiver, get_frame,
  update_frame,
}

-- A frame with the time of its decoding, the duration of that and its capture time.
pub record Entry {ℓ} (A : Type ℓ) : Type ℓ where
  pub frame : A
  pub decoded_at : ℕ
  pub duration : ℕ
  pub captured_at : ℕ

-- The reference: one queue of entries, and the entry that is shown.
pub record Player {ℓ} (A : Type ℓ) : Type ℓ where
  pub queue : List (Entry A)
  pub shown : Option (Entry A)

pub data Event {ℓ} (A : Type ℓ) : Type ℓ where
  decoded : Entry A → Event A
  displayed : ℕ → Event A

abbrev pub map? {ℓ κ} : {A : Type ℓ} {B : Type κ} → (A → B) → Option A → Option B
map? f none = none
map? f (some x) = some (f x)

module _ {ℓ} {A : Type ℓ} where
  -- The newest entry for a ratio of 0, and all others go; the oldest for 100; between them the oldest
  -- that is left when the queue is cut to the ratio's share of the buffer and one more.
  abbrev pub show : ℕ → Player A → Player A
  show ratio p =
      if ratio == 100
      then record { queue = drop 1 p.queue; shown = or_keep p.shown (head? p.queue) }
      else if ratio == 0
      then record { queue = []; shown = or_keep p.shown (last? p.queue) }
      else let kept = drop (frames_to_drop ratio (length p.queue)) p.queue in
        record { queue = drop 1 kept; shown = or_keep p.shown (head? kept) }

  unfoldable pub react : ℕ → Event A → Player A → Player A
  react ratio (decoded e) p = record p { queue = append_bounded max_frame_buffer_size e p.queue }
  react ratio (displayed now) p = show ratio p

  unfoldable pub react_all : ℕ → List (Event A) → Player A → Player A
  react_all ratio [] p = p
  react_all ratio (e ∷ es) p = react_all ratio es (react ratio e p)

  -- _update_frame with the entry's parts, and get_frame
  unfoldable pub handle : Event A → Receiver A → Receiver A
  handle (decoded e) r = update_frame e.decoded_at e.frame e.duration e.captured_at r
  handle (displayed now) r = get_frame now r

  unfoldable pub handle_all : List (Event A) → Receiver A → Receiver A
  handle_all [] r = r
  handle_all (e ∷ es) r = handle_all es (handle e r)

  -- The four deques are the columns of the queue, and the frame shown has its own decoding time.
  pub record Refines (ratio : ℕ) (r : Receiver A) (p : Player A) : Type ℓ where
    pub same_ratio : r.render_ratio ≡ ratio
    pub timed : r.timing_enabled ≡ true
    pub frames : r.frame_buffer ≡ map (λ e. e.frame) p.queue
    pub timestamps : r.frame_timestamps ≡ map (λ e. e.decoded_at) p.queue
    pub durations : r.decode_durations ≡ map (λ e. e.duration) p.queue
    pub captures : r.capture_timestamps ≡ map (λ e. e.captured_at) p.queue
    pub same_frame : r.frame ≡ map? (λ e. e.frame) p.shown
    pub same_time : r.last_displayed_decode_time ≡ map? (λ e. e.decoded_at) p.shown
