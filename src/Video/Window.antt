-- ===== src/Video/Window.antt =====
-- v3xctrl_helper/SlidingWindowAverage.py, but for the averaging itself: which samples a window holds.
pub mod Recent
use v3xctrl.Base.{ℕ, ◌+◌, List, [], ◌∷◌, ◌++◌, ltb, if◌then◌else◌}

module _ {ℓ} {A : Type ℓ} where
  -- _evict: `samples[0][0] < now - window`, with the window on the other side
  unfoldable pub evict : ℕ → ℕ → List (ℕ × A) → List (ℕ × A)
  evict window now [] = []
  evict window now ((t, v) ∷ samples) =
      let rest = evict window now samples in if ltb (t + window) now then rest else (t, v) ∷ samples

  -- append
  unfoldable pub append : ℕ → ℕ → A → List (ℕ × A) → List (ℕ × A)
  unfolding evict
  append window now v samples = evict window now (samples ++ ((now, v) ∷ []))

  -- a series of appends, each with its time
  unfoldable pub append_all : ℕ → List (ℕ × A) → List (ℕ × A) → List (ℕ × A)
  append_all window [] samples = samples
  append_all window ((now, v) ∷ rest) samples = append_all window rest (append window now v samples)
