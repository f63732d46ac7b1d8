-- ===== src/Viewer/Frames/Picks.antt =====
-- Each step on the frame buffer follows the reference.
use v3xctrl.Base.{
  ℕ, zero, suc, ◌+◌, ◌-◌, ◌≡◌, refl, sym, ap, ◌∙◌, true, [], length, drop, ◌==◌, nat_eq, Bool-cases,
  inl, inr,
}
use v3xctrl.Viewer.Frames.{
  append_bounded, head?, last?, or_keep, max_frame_buffer_size, frames_to_drop, Receiver,
  drop_frame, drop_frames, pick_oldest_frame, pick_newest_frame, pick_adaptive_frame, pick_frame,
  pop_timing, pop_frame, update_frame,
}
use v3xctrl.Viewer.Frames.Player.{Player, Entry, decoded, show, react, handle, Refines}
use v3xctrl.Viewer.Frames.Deques.{
  map-drop, length-map, head?-map, last?-map, or_keep-map, append_bounded-map, drop-drop_one,
}

module _ {ℓ} {A : Type ℓ} where
  update_frame-timed :
      (e : Entry A) (r : Receiver A)
      → r.timing_enabled ≡ true
      → update_frame e.decoded_at e.frame e.duration e.captured_at r ≡ record r {
        frame_buffer = append_bounded max_frame_buffer_size e.frame r.frame_buffer;
        frame_receive_history = append_bounded r.history_size e.decoded_at r.frame_receive_history;
        decoded_frame_count = r.decoded_frame_count + 1;
        frame_timestamps = append_bounded max_frame_buffer_size e.decoded_at r.frame_timestamps;
        decode_durations = append_bounded max_frame_buffer_size e.duration r.decode_durations;
        capture_timestamps =
            append_bounded max_frame_buffer_size e.captured_at r.capture_timestamps;
      }
  unfolding update_frame
  update_frame-timed e r on = simp on refl

  pub update_frame-Refines :
      (ratio : ℕ) (e : Entry A) (r : Receiver A) (p : Player A)
      → Refines ratio r p
      → Refines ratio (handle (decoded e) r) (react ratio (decoded e) p)
  unfolding handle react
  update_frame-Refines ratio e r p h = rw (update_frame-timed e r h.timed) (record {
    same_ratio = h.same_ratio;
    timed = h.timed;
    frames =
        ap (append_bounded max_frame_buffer_size e.frame) h.frames
        ∙ append_bounded-map (λ (x : Entry A). x.frame) max_frame_buffer_size e p.queue;
    timestamps =
        ap (append_bounded max_frame_buffer_size e.decoded_at) h.timestamps
        ∙ append_bounded-map (λ (x : Entry A). x.decoded_at) max_frame_buffer_size e p.queue;
    durations =
        ap (append_bounded max_frame_buffer_size e.duration) h.durations
        ∙ append_bounded-map (λ (x : Entry A). x.duration) max_frame_buffer_size e p.queue;
    captures =
        ap (append_bounded max_frame_buffer_size e.captured_at) h.captures
        ∙ append_bounded-map (λ (x : Entry A). x.captured_at) max_frame_buffer_size e p.queue;
    same_frame = h.same_frame;
    same_time = h.same_time;
  })

  drop_frame-timed :
      (r : Receiver A)
      → r.timing_enabled ≡ true
      → drop_frame r ≡ record r {
        frame_buffer = drop 1 r.frame_buffer;
        frame_timestamps = drop 1 r.frame_timestamps;
        decode_durations = drop 1 r.decode_durations;
        capture_timestamps = drop 1 r.capture_timestamps;
      }
  unfolding drop_frame
  drop_frame-timed r on = simp on refl

  drop_frame-Refines :
      (ratio : ℕ) (r : Receiver A) (p : Player A)
      → Refines ratio r p
      → Refines ratio (drop_frame r) (record p { queue = drop 1 p.queue })
  drop_frame-Refines ratio r p h = rw (drop_frame-timed r h.timed) (record {
    same_ratio = h.same_ratio;
    timed = h.timed;
    frames = ap (drop 1) h.frames ∙ sym (map-drop _ 1 p.queue);
    timestamps = ap (drop 1) h.timestamps ∙ sym (map-drop _ 1 p.queue);
    durations = ap (drop 1) h.durations ∙ sym (map-drop _ 1 p.queue);
    captures = ap (drop 1) h.captures ∙ sym (map-drop _ 1 p.queue);
    same_frame = h.same_frame;
    same_time = h.same_time;
  })

  drop_frames-Refines :
      (ratio n : ℕ) (r : Receiver A) (p : Player A)
      → Refines ratio r p
      → Refines ratio (drop_frames n r) (record p { queue = drop n p.queue })
  unfolding drop_frames
  drop_frames-Refines ratio zero r p h = h
  drop_frames-Refines ratio (suc n) r p h = rw (← drop-drop_one n p.queue) (
      drop_frames-Refines ratio n (drop_frame r) (record p { queue = drop 1 p.queue })
        (drop_frame-Refines ratio r p h))

  pop_first-timed :
      (r : Receiver A)
      → r.timing_enabled ≡ true
      → (pop_timing (pop_frame r)).0 ≡ record r {
        frame = or_keep r.frame (head? r.frame_buffer);
        frame_buffer = drop 1 r.frame_buffer;
        last_displayed_decode_time =
            or_keep r.last_displayed_decode_time (head? r.frame_timestamps);
        frame_timestamps = drop 1 r.frame_timestamps;
        decode_durations = drop 1 r.decode_durations;
        capture_timestamps = drop 1 r.capture_timestamps;
      }
  unfolding pop_timing pop_frame
  pop_first-timed r on = simp on refl

  pop_first-Refines :
      (ratio : ℕ) (r : Receiver A) (p : Player A)
      → Refines ratio r p
      → Refines ratio
          (pop_timing (pop_frame r)).0
          (record { queue = drop 1 p.queue; shown = or_keep p.shown (head? p.queue) })
  pop_first-Refines ratio r p h = rw (pop_first-timed r h.timed) (record {
    same_ratio = h.same_ratio;
    timed = h.timed;
    frames = ap (drop 1) h.frames ∙ sym (map-drop _ 1 p.queue);
    timestamps = ap (drop 1) h.timestamps ∙ sym (map-drop _ 1 p.queue);
    durations = ap (drop 1) h.durations ∙ sym (map-drop _ 1 p.queue);
    captures = ap (drop 1) h.captures ∙ sym (map-drop _ 1 p.queue);
    same_frame =
        rw (h.same_frame, h.frames, head?-map _ p.queue)
          (or_keep-map (λ (x : Entry A). x.frame) p.shown (head? p.queue));
    same_time =
        rw (h.same_time, h.timestamps, head?-map _ p.queue)
          (or_keep-map (λ (x : Entry A). x.decoded_at) p.shown (head? p.queue));
  })

  pick_newest-timed :
      (r : Receiver A)
      → r.timing_enabled ≡ true
      → (pick_newest_frame r).0 ≡ record r {
        frame = or_keep r.frame (last? r.frame_buffer);
        frame_buffer = [];
        last_displayed_decode_time =
            or_keep r.last_displayed_decode_time (last? r.frame_timestamps);
        frame_timestamps = [];
        decode_durations = [];
        capture_timestamps = [];
        dropped_burst_frames = r.dropped_burst_frames + (length r.frame_buffer - 1);
      }
  unfolding pick_newest_frame
  pick_newest-timed r on = simp on refl

  pick_newest-Refines :
      (ratio : ℕ) (r : Receiver A) (p : Player A)
      → Refines ratio r p
      → Refines ratio
          (pick_newest_frame r).0
          (record { queue = []; shown = or_keep p.shown (last? p.queue) })
  pick_newest-Refines ratio r p h = rw (pick_newest-timed r h.timed) (record {
    same_ratio = h.same_ratio;
    timed = h.timed;
    frames = refl;
    timestamps = refl;
    durations = refl;
    captures = refl;
    same_frame =
        rw (h.same_frame, h.frames, last?-map _ p.queue)
          (or_keep-map (λ (x : Entry A). x.frame) p.shown (last? p.queue));
    same_time =
        rw (h.same_time, h.timestamps, last?-map _ p.queue)
          (or_keep-map (λ (x : Entry A). x.decoded_at) p.shown (last? p.queue));
  })

  pick_adaptive-Refines :
      (ratio : ℕ) (r : Receiver A) (p : Player A)
      → Refines ratio r p
      → let kept = drop (frames_to_drop ratio (length p.queue)) p.queue in
        Refines ratio
          (pick_adaptive_frame r).0
          (record { queue = drop 1 kept; shown = or_keep p.shown (head? kept) })
  unfolding pick_adaptive_frame
  pick_adaptive-Refines ratio r p h =
      let n = frames_to_drop r.render_ratio (length r.frame_buffer) in
      let counted = record r { dropped_burst_frames = r.dropped_burst_frames + n } in
      let same : n ≡ frames_to_drop ratio (length p.queue) =
        ap (λ k. frames_to_drop k (length r.frame_buffer)) h.same_ratio
        ∙ ap (λ l. frames_to_drop ratio (length l)) h.frames
        ∙ ap (frames_to_drop ratio) (length-map _ p.queue) in
      let start : Refines ratio counted p = record {
        same_ratio = h.same_ratio;
        timed = h.timed;
        frames = h.frames;
        timestamps = h.timestamps;
        durations = h.durations;
        captures = h.captures;
        same_frame = h.same_frame;
        same_time = h.same_time;
      } in
      rw (← same) (
        pop_first-Refines ratio (drop_frames n counted) (record p { queue = drop n p.queue })
          (drop_frames-Refines ratio n counted p start))

  pub pick_frame-Refines :
      (ratio : ℕ) (r : Receiver A) (p : Player A)
      → Refines ratio r p
      → Refines ratio (pick_frame r).0 (show ratio p)
  unfolding pick_frame pick_oldest_frame
  pick_frame-Refines ratio r p h =
      let t : (r.render_ratio == 100) ≡ (ratio == 100) = ap (λ k. k == 100) h.same_ratio in
      let z : (r.render_ratio == 0) ≡ (ratio == 0) = ap (λ k. k == 0) h.same_ratio in
      let oldest = pop_first-Refines ratio r p h in
      let newest = pick_newest-Refines ratio r p h in
      let adaptive = pick_adaptive-Refines ratio r p h in
      elim (Bool-cases (ratio == 100)) [
        | inl e ↦ simp (t, e) oldest
        | inr e ↦ elim (Bool-cases (ratio == 0)) [
          | inl e0 ↦ simp (t, e, z, e0) newest
          | inr e0 ↦ simp (t, e, z, e0) adaptive
        ]
      ]
