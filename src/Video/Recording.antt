-- ===== src/Video/Recording.antt =====
-- src/v3xctrl_gst/RecordingManager.py. Elements and pads are the numbers of the objects, drawn from
-- `next`; `pipeline` and `pads` are the elements and the tee's pads that the manager put there. The
-- answers of GStreamer are arguments. A call of `stop` blocks until it returns, and calls do not
-- overlap; a teardown that is queued on the main loop may run after it.
pub mod Leaks
use v3xctrl.Base.{
  ℕ, ◌+◌, ◌-◌, Bool, true, false, not, Option, none, some, List, [], ◌∷◌, ◌++◌, ◌==◌, nat_eq,
  if◌then◌else◌,
}

pub record RecordingManager : Type 0 where
  pub has_dir : Bool
  pub is_recording : Bool
  pub elements : List ℕ
  pub tee_pad : Option ℕ
  pub pipeline : List ℕ
  pub pads : List ℕ
  pub next : ℕ
  -- the teardowns that wait on the main loop
  pub idle : ℕ

unfoldable pub new_manager : Bool → RecordingManager
new_manager has_dir = record {
  has_dir = has_dir;
  is_recording = false;
  elements = [];
  tee_pad = none;
  pipeline = [];
  pads = [];
  next = 0;
  idle = 0;
}

-- What the calls of `start` meet: `os.makedirs`, the four factories, the three links, the tee's pad
-- and the link to it.
pub record Gst : Type 0 where
  pub dir_made : Bool
  pub queue_made : Bool
  pub parser_made : Bool
  pub muxer_made : Bool
  pub filesink_made : Bool
  pub queue_linked : Bool
  pub parser_linked : Bool
  pub muxer_linked : Bool
  pub pad_given : Bool
  pub tee_linked : Bool

-- A call returns a flag, or lets an OSError pass.
pub data Outcome : Type 0 where
  returned : Bool → Outcome
  raised : Outcome

-- Removes the first occurrence.
unfoldable pub remove : ℕ → List ℕ → List ℕ
remove x [] = []
remove x (y ∷ ys) = let rest = y ∷ remove x ys in if x == y then ys else rest

unfoldable pub remove_each : List ℕ → List ℕ → List ℕ
unfolding remove
remove_each [] from = from
remove_each (x ∷ xs) from = remove_each xs (remove x from)

-- `if self._tee_pad: self._tee.release_request_pad(self._tee_pad); self._tee_pad = None`
unfoldable pub release_pad : RecordingManager → RecordingManager
unfolding remove
release_pad m = elim m.tee_pad [
  | none ↦ m
  | some pad ↦ record m { tee_pad = none; pads = remove pad m.pads }
]

-- The loop over `self._elements`, and `self._elements = {}`
unfoldable pub remove_elements : RecordingManager → RecordingManager
unfolding remove_each
remove_elements m = record m { pipeline = remove_each m.elements m.pipeline; elements = [] }

-- _cleanup
unfoldable pub cleanup : RecordingManager → RecordingManager
unfolding release_pad remove_elements
cleanup m = remove_elements (release_pad (record m { is_recording = false }))

-- `self._elements = {…}` and the four `self._pipeline.add`
unfoldable pub add_elements : RecordingManager → RecordingManager
add_elements m =
    let new = m.next ∷ (m.next + 1) ∷ (m.next + 2) ∷ (m.next + 3) ∷ [] in
    record m {
      is_recording = true;
      elements = new;
      pipeline = m.pipeline ++ new;
      next = m.next + 4;
    }

-- `tee_src_pad = self._tee.request_pad_simple(…)`, `self._tee_pad = tee_src_pad`
unfoldable pub take_pad : RecordingManager → RecordingManager
take_pad m = record m { tee_pad = some m.next; pads = m.pads ++ (m.next ∷ []); next = m.next + 1 }

-- from the links on
unfoldable pub link_branch : Gst → RecordingManager → RecordingManager × Outcome
unfolding cleanup take_pad
link_branch g m =
    if not g.queue_linked
    then (cleanup m, returned false)
    else if not g.parser_linked
    then (cleanup m, returned false)
    else if not g.muxer_linked
    then (cleanup m, returned false)
    else if not g.pad_given
    then (cleanup m, returned false)
    else if not g.tee_linked
    then (cleanup (take_pad m), returned false)
    else (take_pad m, returned true)

unfoldable pub start : Gst → RecordingManager → RecordingManager × Outcome
unfolding link_branch add_elements
start g m =
    if m.is_recording
    then (m, returned false)
    else if not m.has_dir
    then (m, returned false)
    else if not g.dir_made
    then (record m { is_recording = true }, raised)
    else if not g.queue_made
    then (record m { is_recording = false }, returned false)
    else if not g.parser_made
    then (record m { is_recording = false }, returned false)
    else if not g.muxer_made
    then (record m { is_recording = false }, returned false)
    else if not g.filesink_made
    then (record m { is_recording = false }, returned false)
    else link_branch g (add_elements m)

-- How far the probes get before `STOP_TIMEOUT`: the pad is not blocked; it is, and no EOS comes; the
-- EOS comes, and the main loop does not run; the teardown runs.
pub data Progress : Type 0 where
  not_blocked no_eos queued torn_down : Progress

-- _on_tee_pad_blocked: the pad is released.
unfoldable pub on_tee_pad_blocked : RecordingManager → RecordingManager
unfolding release_pad
on_tee_pad_blocked m = release_pad m

-- _on_recording_eos: `GLib.idle_add(self._teardown)`
unfoldable pub on_recording_eos : RecordingManager → RecordingManager
on_recording_eos m = record m { idle = m.idle + 1 }

-- _teardown
unfoldable pub teardown : RecordingManager → RecordingManager
unfolding remove_elements
teardown m = remove_elements m

-- _force_teardown
unfoldable pub force_teardown : RecordingManager → RecordingManager
unfolding release_pad remove_elements
force_teardown m = remove_elements (release_pad m)

abbrev finish_blocked : Progress → RecordingManager → RecordingManager
unfolding on_tee_pad_blocked on_recording_eos teardown force_teardown
finish_blocked not_blocked m = force_teardown m
finish_blocked no_eos m = force_teardown (on_tee_pad_blocked m)
finish_blocked queued m = force_teardown (on_recording_eos (on_tee_pad_blocked m))
finish_blocked torn_down m = teardown (on_tee_pad_blocked m)

-- from `add_probe` on; with no queue among the elements the probe's callback ends in a KeyError
unfoldable pub finish_stop : Progress → RecordingManager → RecordingManager
unfolding finish_blocked
finish_stop p m = elim m.elements [ [] ↦ force_teardown m | x ∷ xs ↦ finish_blocked p m ]

unfoldable pub stop : Progress → RecordingManager → RecordingManager × Outcome
unfolding finish_stop
stop p m = if not m.is_recording then (m, returned false) else elim m.tee_pad [
  | none ↦ (m, returned false)
  | some pad ↦ (finish_stop p (record m { is_recording = false }), returned true)
]

-- The main loop runs a teardown that was queued.
unfoldable pub run_idle : RecordingManager → RecordingManager
unfolding teardown
run_idle m = if m.idle == 0 then m else teardown (record m { idle = m.idle - 1 })
