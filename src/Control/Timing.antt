-- ===== src/Control/Timing.antt =====
-- The intervals of the viewer's loop: src/v3xctrl_ui/core/controllers/TimingController.py. The source
-- compares `now - last >= interval - TIMING_EPSILON`; here both sides are without the subtractions,
-- and all times and the tolerance are in one unit.
use v3xctrl.Base.{ℕ, ◌+◌, Bool, leb}

pub record Timing : Type 0 where
  pub control_interval : ℕ
  pub latency_interval : ℕ
  pub last_control_update : ℕ
  pub last_latency_check : ℕ
  pub timing_epsilon : ℕ

unfoldable pub should_update_control : ℕ → Timing → Bool
should_update_control now t =
    leb (t.control_interval + t.last_control_update) (now + t.timing_epsilon)

unfoldable pub should_check_latency : ℕ → Timing → Bool
should_check_latency now t =
    leb (t.latency_interval + t.last_latency_check) (now + t.timing_epsilon)

unfoldable pub mark_control_updated : ℕ → Timing → Timing
mark_control_updated now t = record t { last_control_update = now }

unfoldable pub mark_latency_checked : ℕ → Timing → Timing
mark_latency_checked now t = record t { last_latency_check = now }
