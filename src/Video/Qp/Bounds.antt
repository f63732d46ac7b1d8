-- ===== src/Video/Qp/Bounds.antt =====
-- The minimal QP stays in its limits, and moves towards fitting frames.
use v3xctrl.Base.{
  ℕ, ◌+◌, ◌*◌, ◌≤◌, ◌<◌, ◌≡◌, refl, some, List, [], ◌∷◌, arith, ltb, leb, ◌&&◌, length,
  if◌then◌else◌, ◌⊎◌, ◌∙◌,
}
use v3xctrl.Video.Qp.{QpManager, step_size, new_qp_min, adjust, on_keyframe, on_keyframes, apply_qp}

-- What holds between two keyframes.
pub record IsValid (q : QpManager) : Type 0 where
  pub lower : q.qp_min_limit ≤ q.current_qp_min
  pub upper : q.current_qp_min ≤ q.qp_max_limit
  pub cooling : q.keyframes_since_adjust ≤ q.cooldown_keyframes
  pub positive : 0 < q.max_i_frame_bytes

new_qp_min_bounds :
    (q : QpManager) (size : ℕ)
    → q.qp_min_limit ≤ q.current_qp_min
    → q.current_qp_min ≤ q.qp_max_limit
    → (q.qp_min_limit ≤ new_qp_min q size) × (new_qp_min q size ≤ q.qp_max_limit)
unfolding new_qp_min
new_qp_min_bounds q size l u = ground arith

-- the fields that no operation writes
pub record SameLimits (q q' : QpManager) : Type 0 where
  pub bytes : q'.max_i_frame_bytes ≡ q.max_i_frame_bytes
  pub low : q'.qp_min_limit ≡ q.qp_min_limit
  pub high : q'.qp_max_limit ≡ q.qp_max_limit
  pub small : q'.min_step ≡ q.min_step
  pub large : q'.max_step ≡ q.max_step
  pub cooldown : q'.cooldown_keyframes ≡ q.cooldown_keyframes

-- the manager after `_adjust`
pub adjusted : QpManager → ℕ → QpManager
adjusted q size =
    if leb size q.max_i_frame_bytes
      && leb (q.max_i_frame_bytes * q.lower_limit_percent) (size * 100)
    then q
    else apply_qp (new_qp_min q size) q

adjust-adjusted :
    (q : QpManager) (size : ℕ) → 0 < q.max_i_frame_bytes → adjust q size ≡ some (adjusted q size)
unfolding adjust adjusted
adjust-adjusted q size h = ground arith

current-adjusted : (q : QpManager) (size : ℕ) → (adjusted q size).current_qp_min ≡ new_qp_min q size
unfolding adjusted adjust new_qp_min
current-adjusted q size = ground arith

adjusted-SameLimits : (q : QpManager) (size : ℕ) → SameLimits q (adjusted q size)
unfolding adjusted apply_qp
adjusted-SameLimits q size = ground arith

-- the manager after `on_keyframe`
pub after_keyframe : QpManager → ℕ → QpManager
after_keyframe q size =
    let q' = record q { keyframes_since_adjust = q.keyframes_since_adjust + 1 } in
    if ltb q.cooldown_keyframes (q.keyframes_since_adjust + 1)
    then record (adjusted q' size) { keyframes_since_adjust = 0 }
    else q'

on_keyframe-after :
    (q : QpManager) (size : ℕ)
    → 0 < q.max_i_frame_bytes
    → on_keyframe q size ≡ some (after_keyframe q size)
unfolding on_keyframe after_keyframe
on_keyframe-after q size h =
    let q' = record q { keyframes_since_adjust = q.keyframes_since_adjust + 1 } in
    ground (arith, adjust-adjusted q' size h)

after_keyframe-IsValid : (q : QpManager) (size : ℕ) → IsValid q → IsValid (after_keyframe q size)
unfolding after_keyframe
after_keyframe-IsValid q size v =
    let q' = record q { keyframes_since_adjust = q.keyframes_since_adjust + 1 } in
    ground (
      arith,
      current-adjusted q' size,
      new_qp_min_bounds q' size v.lower v.upper,
      adjusted-SameLimits q' size,
    )

after_keyframe-SameLimits : (q : QpManager) (size : ℕ) → SameLimits q (after_keyframe q size)
unfolding after_keyframe
after_keyframe-SameLimits q size =
    let q' = record q { keyframes_since_adjust = q.keyframes_since_adjust + 1 } in
    ground (arith, adjusted-SameLimits q' size)

-- Every size is over the limit of the manager.
abbrev pub AreLarge : ℕ → List ℕ → Type 0
AreLarge limit [] = Unit
AreLarge limit (size ∷ sizes) = (limit < size) × AreLarge limit sizes

above_step :
    (q : QpManager) (size : ℕ)
    → IsValid q
    → q.cooldown_keyframes ≡ 0
    → 0 < q.min_step
    → 0 < q.max_step
    → q.max_i_frame_bytes < size
    → ((after_keyframe q size).current_qp_min ≡ q.qp_max_limit)
      ⊎ (q.current_qp_min < (after_keyframe q size).current_qp_min)
unfolding after_keyframe new_qp_min step_size
above_step q size v c s l h =
    let q' = record q { keyframes_since_adjust = q.keyframes_since_adjust + 1 } in
    ground (arith, v, current-adjusted q' size)

-- With no cooldown and positive steps, keyframes that are all too large bring the minimal QP to its
-- upper limit within as many keyframes as it is below it, and it stays there.
on_keyframes-reaches_max :
    (q : QpManager) (sizes : List ℕ)
    → IsValid q
    → q.cooldown_keyframes ≡ 0
    → 0 < q.min_step
    → 0 < q.max_step
    → AreLarge q.max_i_frame_bytes sizes
    → q.qp_max_limit ≤ q.current_qp_min + length sizes
    → (q' : QpManager) × (on_keyframes q sizes ≡ some q') × (q'.current_qp_min ≡ q.qp_max_limit)
unfolding on_keyframes
on_keyframes-reaches_max q [] v c s l large near = (q, refl, omega (arith, v))
on_keyframes-reaches_max q (size ∷ sizes) v c s l large near =
    let q1 = after_keyframe q size in
    let same = after_keyframe-SameLimits q size in
    let v1 = after_keyframe-IsValid q size v in
    let closer : q1.qp_max_limit ≤ q1.current_qp_min + length sizes =
      omega (arith, above_step q size v c s l large.0, same, v1) in
    let (q', result, reached) =
      on_keyframes-reaches_max q1 sizes v1 (same.cooldown ∙ c) (omega (arith, same.small))
        (omega (arith, same.large)) (rw same.bytes large.1) closer in
    (q', rw (on_keyframe-after q size v.positive, on_keyframes) result, reached ∙ same.high)
