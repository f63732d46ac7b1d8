-- ===== src/Video/Qp.antt =====
-- v3xctrl_gst/QPManager.py. The lower limit is a whole percentage, and the comparisons with
-- `max * percent / 100` and the quotient by the target are made exact by cross-multiplication, where
-- the source rounds in floating point. The encoder is the list of the values that were applied.
pub mod Bounds
use v3xctrl.Base.{
  ℕ, ◌+◌, ◌-◌, ◌*◌, ◌/◌, Bool, Option, none, some, List, [], ◌∷◌, ◌++◌, ◌&&◌, ltb, leb, ◌==◌,
  nat_eq, min, max, if◌then◌else◌,
}

pub record QpManager : Type 0 where
  pub max_i_frame_bytes : ℕ
  pub lower_limit_percent : ℕ
  pub qp_min_limit : ℕ
  pub qp_max_limit : ℕ
  pub current_qp_min : ℕ
  pub min_step : ℕ
  pub max_step : ℕ
  pub cooldown_keyframes : ℕ
  pub keyframes_since_adjust : ℕ
  pub applied : List ℕ

-- QPManager(encoder, max_i_frame_bytes, qp_min, qp_max, …)
unfoldable pub new_manager : ℕ → ℕ → ℕ → ℕ → ℕ → ℕ → ℕ → QpManager
new_manager max_bytes qp_min qp_max min_step max_step cooldown percent = record {
  max_i_frame_bytes = max_bytes;
  lower_limit_percent = percent;
  qp_min_limit = qp_min;
  qp_max_limit = qp_max;
  current_qp_min = qp_min;
  min_step = min_step;
  max_step = max_step;
  cooldown_keyframes = cooldown;
  keyframes_since_adjust = 0;
  applied = [];
}

-- size < _min_i_frame_bytes
unfoldable pub is_below : QpManager → ℕ → Bool
is_below q size = ltb (size * 100) (q.max_i_frame_bytes * q.lower_limit_percent)

-- size > _max_i_frame_bytes
unfoldable pub is_above : QpManager → ℕ → Bool
is_above q size = ltb q.max_i_frame_bytes size

-- `int(size / _target_i_frame_bytes)`, clamped to the steps
unfoldable pub step_size : QpManager → ℕ → ℕ
step_size q size =
    let target_200 = q.max_i_frame_bytes * (100 + q.lower_limit_percent) in
    min (max (size * 200 / target_200) q.min_step) q.max_step

-- from `if new_qp_min != self._current_qp_min` on, with _apply_qp
unfoldable pub apply_qp : ℕ → QpManager → QpManager
apply_qp new_qp_min q =
    if new_qp_min == q.current_qp_min
    then q
    else record q { current_qp_min = new_qp_min; applied = q.applied ++ (new_qp_min ∷ []) }

unfoldable pub new_qp_min : QpManager → ℕ → ℕ
unfolding is_below is_above
new_qp_min q size =
    if is_above q size
    then min (q.current_qp_min + step_size q size) q.qp_max_limit
    else if is_below q size
    then max (q.current_qp_min - step_size q size) q.qp_min_limit
    else q.current_qp_min

-- _adjust; `none` is the ZeroDivisionError of a maximum of no bytes.
unfoldable pub adjust : QpManager → ℕ → Option QpManager
unfolding is_below is_above apply_qp new_qp_min
adjust q size =
    if leb size q.max_i_frame_bytes
      && leb (q.max_i_frame_bytes * q.lower_limit_percent) (size * 100)
    then some q
    else if q.max_i_frame_bytes == 0
    then none
    else some (apply_qp (new_qp_min q size) q)

unfoldable pub on_keyframe : QpManager → ℕ → Option QpManager
on_keyframe q size =
    let q' = record q { keyframes_since_adjust = q.keyframes_since_adjust + 1 } in
    if ltb q'.cooldown_keyframes q'.keyframes_since_adjust
    then elim (adjust q' size) [
      | none ↦ none
      | some q'' ↦ some (record q'' { keyframes_since_adjust = 0 })
    ]
    else some q'

-- a sequence of keyframes
unfoldable pub on_keyframes : QpManager → List ℕ → Option QpManager
on_keyframes q [] = some q
on_keyframes q (size ∷ sizes) = elim (on_keyframe q size) [
  | none ↦ none
  | some q' ↦ on_keyframes q' sizes
]
