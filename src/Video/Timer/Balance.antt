-- ===== src/Video/Timer/Balance.antt =====
-- The five statistics stay of one length, and finished and overtaken frames leave the table.
use v3xctrl.Base.{
  ℕ, ◌-◌, ◌≡◌, Option, none, some, List, [], ◌∷◌, arith, length, length-append, nat_eq, Bool-cases,
  Option-cases, inl, inr,
}
use v3xctrl.Base.Dict.{get}
use v3xctrl.Video.Timer.{
  Timing, Stats, Timer, enable, on_source_buffer, on_capsfilter_buffer, on_encoder_buffer,
  on_payloader_in, record_frame, sink_seen, on_udpsink_buffer_list,
}

pub record IsBalanced (s : Stats) : Type 0 where
  pub capsfilter : length s.capsfilter ≡ length s.capture
  pub encode : length s.encode ≡ length s.capture
  pub package_times : length s.package_times ≡ length s.capture
  pub payloader : length s.payloader ≡ length s.capture

record_frame-IsBalanced :
    (now pts : ℕ) (timing : Timing) (a b c : ℕ) (t : Timer)
    → IsBalanced t.stats
    → IsBalanced (record_frame now pts timing a b c t).stats
unfolding record_frame
record_frame-IsBalanced now pts timing a b c t h = ground (
  arith,
  length-append t.stats.capture (timing.capture_delay ∷ []),
  length-append t.stats.capsfilter ((a - timing.source) ∷ []),
  length-append t.stats.encode ((b - a) ∷ []),
  length-append t.stats.package_times ((c - b) ∷ []),
  length-append t.stats.payloader ((now - c) ∷ []),
)

-- The probes, each with the time of its call.
pub data Probe : Type 0 where
  source : ℕ → ℕ → ℕ → Probe
  capsfilter encoder payloader_in udpsink : ℕ → ℕ → Probe
  enabled_at : ℕ → Probe

unfoldable pub fire : Timer → Probe → Timer
fire t (source now delay pts) = on_source_buffer now delay pts t
fire t (capsfilter now pts) = on_capsfilter_buffer now pts t
fire t (encoder now pts) = on_encoder_buffer now pts t
fire t (payloader_in now pts) = on_payloader_in now pts t
fire t (udpsink now pts) = on_udpsink_buffer_list now pts t
fire t (enabled_at now) = enable now t

sink_seen-IsBalanced :
    (now pts : ℕ) (timing : Timing) (a b c : Option ℕ) (t : Timer)
    → IsBalanced t.stats
    → IsBalanced (sink_seen now pts timing a b c t).stats
unfolding sink_seen
sink_seen-IsBalanced now pts timing (some a) (some b) (some c) t h =
    record_frame-IsBalanced now pts timing a b c t h
sink_seen-IsBalanced now pts timing none b c t h = h
sink_seen-IsBalanced now pts timing (some a) none c t h = h
sink_seen-IsBalanced now pts timing (some a) (some b) none t h = h

-- Every probe keeps the five statistics of one length, so that averages are over the same frames.
pub fire-IsBalanced : (t : Timer) (p : Probe) → IsBalanced t.stats → IsBalanced (fire t p).stats
unfolding fire
fire-IsBalanced t (source now delay pts) h = unfold on_source_buffer in ground arith
fire-IsBalanced t (capsfilter now pts) h = unfold on_capsfilter_buffer in ground arith
fire-IsBalanced t (encoder now pts) h = unfold on_encoder_buffer in ground arith
fire-IsBalanced t (payloader_in now pts) h = unfold on_payloader_in in ground arith
fire-IsBalanced t (udpsink now pts) h =
    unfold on_udpsink_buffer_list in
    elim (Bool-cases t.enabled) [
      | inl e ↦ rw e (elim (Option-cases (get pts t.frames)) [
        | inl f ↦ rw f h
        | inr (timing, f) ↦ rw f (
            sink_seen-IsBalanced now pts timing timing.capsfilter timing.encoder timing.payloader_in
              t h)
      ])
      | inr e ↦ rw e h
    ]
fire-IsBalanced t (enabled_at now) h = unfold enable in ground arith

unfoldable pub fire_all : Timer → List Probe → Timer
fire_all t [] = t
fire_all t (p ∷ ps) = fire_all (fire t p) ps

-- Whatever probes fire, in any order and for any frames, from a timer whose five statistics have one
-- length, they have one length afterwards: every average is over the same frames.
fire_all-IsBalanced :
    (t : Timer) (ps : List Probe) → IsBalanced t.stats → IsBalanced (fire_all t ps).stats
unfolding fire_all
fire_all-IsBalanced t [] h = h
fire_all-IsBalanced t (p ∷ ps) h = fire_all-IsBalanced (fire t p) ps (fire-IsBalanced t p h)
