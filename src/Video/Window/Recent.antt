-- ===== src/Video/Window/Recent.antt =====
-- The window holds exactly the recent samples.
use v3xctrl.Base.{ℕ, ◌+◌, ◌≤◌, ◌≡◌, refl, ◌∙◌, List, [], ◌∷◌, ◌++◌, arith, leb, keep_if}
use v3xctrl.Video.Window.{evict, append}

module _ {ℓ} {A : Type ℓ} where
  -- The times rise along the list, from `bound` on.
  abbrev pub RisesFrom : ℕ → List (ℕ × A) → Type 0
  RisesFrom bound [] = Unit
  RisesFrom bound ((t, v) ∷ samples) = (bound ≤ t) × RisesFrom t samples

  -- the samples that are at most `window` old
  abbrev pub recent : ℕ → ℕ → List (ℕ × A) → List (ℕ × A)
  recent window now samples = keep_if (λ p. leb now (p.0 + window)) samples

  recent-all :
      (window now bound : ℕ) (samples : List (ℕ × A))
      → now ≤ bound + window
      → RisesFrom bound samples
      → recent window now samples ≡ samples
  unfolding keep_if
  recent-all window now bound [] h r = refl
  recent-all window now bound ((t, v) ∷ samples) h r =
      ground (arith, recent-all window now t samples)

  -- Where the times rise, dropping old samples from the front drops all the old ones.
  evict-eq-recent :
      (window now bound : ℕ) (samples : List (ℕ × A))
      → RisesFrom bound samples
      → evict window now samples ≡ recent window now samples
  unfolding evict keep_if
  evict-eq-recent window now bound [] r = refl
  evict-eq-recent window now bound ((t, v) ∷ samples) r =
      ground (arith, evict-eq-recent window now t samples, recent-all window now t samples)

  recent-append :
      (window now : ℕ) (v : A) (samples : List (ℕ × A))
      → recent window now (samples ++ ((now, v) ∷ []))
        ≡ recent window now samples ++ ((now, v) ∷ [])
  unfolding keep_if
  recent-append window now v [] = ground arith
  recent-append window now v ((t, w) ∷ samples) = ground (arith, recent-append window now v samples)

  -- No sample is of a later time.
  abbrev pub NotAfter : ℕ → List (ℕ × A) → Type 0
  NotAfter now [] = Unit
  NotAfter now ((t, v) ∷ samples) = (t ≤ now) × NotAfter now samples

  RisesFrom-append :
      (bound now : ℕ) (v : A) (samples : List (ℕ × A))
      → bound ≤ now
      → RisesFrom bound samples
      → NotAfter now samples
      → RisesFrom bound (samples ++ ((now, v) ∷ []))
  RisesFrom-append bound now v [] h r later = (h, tt)
  RisesFrom-append bound now v ((t, w) ∷ samples) h r later =
      (r.0, RisesFrom-append t now v samples later.0 r.1 later.1)

  -- On a clock that does not run backwards, an append leaves in the window exactly the samples that
  -- are at most its length old, the new one last.
  pub append-eq-recent :
      (window now : ℕ) (v : A) (samples : List (ℕ × A))
      → RisesFrom 0 samples
      → NotAfter now samples
      → append window now v samples ≡ recent window now samples ++ ((now, v) ∷ [])
  unfolding append
  append-eq-recent window now v samples r later =
      evict-eq-recent window now 0 (samples ++ ((now, v) ∷ []))
        (RisesFrom-append 0 now v samples (omega arith) r later)
      ∙ recent-append window now v samples
