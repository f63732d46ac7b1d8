-- ===== src/Video/Recording/Leaks.antt =====
-- Nothing of a recording is left behind in the pipeline, whatever fails.
use v3xctrl.Base.{
  ℕ, ◌+◌, ◌-◌, ◌⊎◌, ◌≡◌, refl, Bool, true, false, Option, none, some, List, [], ◌∷◌, arith, nat_eq,
  beq_refl, Option-cases, Bool-cases, inl, inr,
}
use v3xctrl.Video.Recording.{
  RecordingManager, new_manager, Gst, Outcome, returned, raised, Progress, not_blocked, no_eos,
  queued, torn_down, remove, remove_each, cleanup, release_pad, remove_elements, finish_stop,
  force_teardown, on_tee_pad_blocked, on_recording_eos, teardown, link_branch, take_pad,
  add_elements, start, stop, run_idle,
}

remove_each_self : (xs : List ℕ) → remove_each xs xs ≡ []
unfolding remove_each
remove_each_self [] = refl
remove_each_self (x ∷ xs) = ground (arith, remove_each_self xs, beq_refl x)

abbrev pub pad_list : Option ℕ → List ℕ
pad_list none = []
pad_list (some pad) = pad ∷ []

-- What the manager put into the pipeline and took of the tee is what it still refers to; while it
-- does not record that is nothing.
pub record IsSound (m : RecordingManager) : Type 0 where
  pub same_elements : m.pipeline ≡ m.elements
  pub same_pads : m.pads ≡ pad_list m.tee_pad
  pub idle_elements : m.is_recording ≡ false → m.elements ≡ []
  pub idle_pad : m.is_recording ≡ false → m.tee_pad ≡ none

pub data Call : Type 0 where
  start_call : Gst → Call
  stop_call : Progress → Call
  main_loop : Call

unfoldable pub act : Call → RecordingManager → RecordingManager
act (start_call g) m = (start g m).0
act (stop_call p) m = (stop p m).0
act main_loop m = run_idle m

unfoldable pub act_all : List Call → RecordingManager → RecordingManager
act_all [] m = m
act_all (c ∷ cs) m = act_all cs (act c m)

remove_last : (x : ℕ) → remove x (x ∷ []) ≡ []
unfolding remove
remove_last x = ground (arith, beq_refl x)

-- The state of a manager that does not record, with its four lists empty.
idle_empty :
    (m : RecordingManager)
    → IsSound m
    → m.is_recording ≡ false
    → (m.elements ≡ []) × (m.pipeline ≡ []) × (m.tee_pad ≡ none) × (m.pads ≡ [])
idle_empty m s i = ground arith

module _ (m : RecordingManager) (e : m.pipeline ≡ m.elements)
    (p : m.pads ≡ pad_list m.tee_pad) where
  release_pad-empty : release_pad m ≡ record m { tee_pad = none; pads = [] }
  unfolding release_pad
  release_pad-empty = elim (Option-cases m.tee_pad) [
    | inl h ↦ ground arith
    | inr (pad, h) ↦ ground (arith, remove_last pad)
  ]

  remove_elements-empty : remove_elements m ≡ record m { elements = []; pipeline = [] }
  unfolding remove_elements
  remove_elements-empty = ground (arith, remove_each_self m.elements)

force_teardown-empty :
    (m : RecordingManager)
    → m.pipeline ≡ m.elements
    → m.pads ≡ pad_list m.tee_pad
    → remove_elements (release_pad m)
      ≡ record m { elements = []; pipeline = []; tee_pad = none; pads = [] }
force_teardown-empty m e p =
    rw (release_pad-empty m e p)
      (remove_elements-empty (record m { tee_pad = none; pads = [] }) e refl)

cleanup-empty :
    (m : RecordingManager)
    → m.pipeline ≡ m.elements
    → m.pads ≡ pad_list m.tee_pad
    → IsSound (cleanup m)
unfolding cleanup
cleanup-empty m e p = rw (force_teardown-empty (record m { is_recording = false }) e p) (record {
  same_elements = refl;
  same_pads = refl;
  idle_elements = λ i. refl;
  idle_pad = λ i. refl;
})

link_branch-IsSound :
    (g : Gst) (m : RecordingManager)
    → m.pipeline ≡ m.elements
    → m.tee_pad ≡ none
    → m.pads ≡ []
    → m.is_recording ≡ true
    → IsSound (link_branch g m).0
unfolding link_branch take_pad
link_branch-IsSound g m e t p i =
    let kept = cleanup-empty m e (ground arith) in
    let undone = cleanup-empty (take_pad m) e (ground arith) in ground arith

start-IsSound : (g : Gst) (m : RecordingManager) → IsSound m → IsSound (start g m).0
unfolding start add_elements
start-IsSound g m s = elim (Bool-cases m.is_recording) [
  | inl i ↦ simp i s
  | inr i ↦
      let (els, pipe, tee, pads) = idle_empty m s i in
      let linked = link_branch-IsSound g (add_elements m) (ground arith) tee pads refl in
      ground arith
]

-- After a stop that goes on, by whatever way, nothing is left.
finish_stop-empty :
    (p : Progress) (m : RecordingManager)
    → m.pipeline ≡ m.elements
    → m.pads ≡ pad_list m.tee_pad
    → ((finish_stop p m).elements ≡ [])
      × ((finish_stop p m).pipeline ≡ [])
      × ((finish_stop p m).tee_pad ≡ none)
      × ((finish_stop p m).pads ≡ [])
      × ((finish_stop p m).is_recording ≡ m.is_recording)
unfolding finish_stop force_teardown on_tee_pad_blocked on_recording_eos teardown
finish_stop-empty p m e h =
    let forced = force_teardown-empty m e h in
    let released = release_pad-empty m e h in
    let m1 = record m { tee_pad = none; pads = [] } in
    let m2 = record m { tee_pad = none; pads = []; idle = m.idle + 1 } in
    let again = force_teardown-empty m1 e refl in
    let later = force_teardown-empty m2 e refl in
    let torn = remove_elements-empty m1 e refl in
    elim p [
      | not_blocked ↦ ground arith
      | no_eos ↦ ground arith
      | queued ↦ ground arith
      | torn_down ↦ ground arith
    ]

stop-IsSound : (p : Progress) (m : RecordingManager) → IsSound m → IsSound (stop p m).0
unfolding stop
stop-IsSound p m s =
    let empty =
      finish_stop-empty p (record m { is_recording = false }) s.same_elements s.same_pads in
    ground arith

run_idle-IsSound : (m : RecordingManager) → IsSound m → IsSound (run_idle m)
unfolding run_idle teardown
run_idle-IsSound m s =
    let torn = remove_elements-empty (record m { idle = m.idle - 1 }) s.same_elements s.same_pads in
    ground arith

act_all-IsSound : (cs : List Call) (m : RecordingManager) → IsSound m → IsSound (act_all cs m)
unfolding act_all act
act_all-IsSound [] m s = s
act_all-IsSound (start_call g ∷ cs) m s = act_all-IsSound cs (start g m).0 (start-IsSound g m s)
act_all-IsSound (stop_call p ∷ cs) m s = act_all-IsSound cs (stop p m).0 (stop-IsSound p m s)
act_all-IsSound (main_loop ∷ cs) m s = act_all-IsSound cs (run_idle m) (run_idle-IsSound m s)

pub new_manager-IsSound : (has_dir : Bool) → IsSound (new_manager has_dir)
unfolding new_manager
new_manager-IsSound has_dir = record {
  same_elements = refl;
  same_pads = refl;
  idle_elements = λ i. refl;
  idle_pad = λ i. refl;
}

-- After any calls of start and stop, one after another, and any teardowns that run late, whatever
-- calls of GStreamer fail and however far each stop gets in time: the elements of recordings in the
-- pipeline are those that the manager refers to, the pads taken of the tee are the one it holds,
-- and while it does not record there are neither.
pub act_all-leaks_nothing :
    (has_dir : Bool) (cs : List Call)
    → let m = act_all cs (new_manager has_dir) in
      (m.pipeline ≡ m.elements)
      × (m.pads ≡ pad_list m.tee_pad)
      × ((m.is_recording ≡ true) ⊎ ((m.pipeline ≡ []) × (m.pads ≡ [])))
act_all-leaks_nothing has_dir cs =
    let m = act_all cs (new_manager has_dir) in
    let s : IsSound m = act_all-IsSound cs (new_manager has_dir) (new_manager-IsSound has_dir) in
    (
      s.same_elements,
      s.same_pads,
      elim (Bool-cases m.is_recording) [
        | inl i ↦ inl i
        | inr i ↦ let empty = idle_empty m s i in inr (empty.1, empty.3)
      ],
    )

-- What a call answers; the main loop's part is no call.
pub answer : Call → RecordingManager → Outcome
answer (start_call g) m = (start g m).1
answer (stop_call p) m = (stop p m).1
answer main_loop m = returned false

start-raised :
    (g : Gst) (m : RecordingManager)
    → m.is_recording ≡ false
    → m.has_dir ≡ true
    → g.dir_made ≡ false
    → start g m ≡ (record m { is_recording = true }, raised)
unfolding start
start-raised g m i d f = ground arith

module _ (m : RecordingManager) (i : m.is_recording ≡ true) (t : m.tee_pad ≡ none)
    (w : m.idle ≡ 0) where
  act-frozen : (c : Call) → act c m ≡ m
  unfolding act start stop run_idle
  act-frozen (start_call g) = ground arith
  act-frozen (stop_call p) = ground arith
  act-frozen main_loop = ground arith

  answer-frozen : (c : Call) → answer c m ≡ returned false
  unfolding answer start stop
  answer-frozen (start_call g) = ground arith
  answer-frozen (stop_call p) = ground arith
  answer-frozen main_loop = refl

  act_all-frozen : (cs : List Call) → act_all cs m ≡ m
  unfolding act_all
  act_all-frozen [] = refl
  act_all-frozen (c ∷ cs) = rw (act-frozen c) (act_all-frozen cs)

-- The OSError of a recording directory that cannot be made leaves the manager recording with no
-- pad: no later calls of start and stop change its state, and each of them returns False.
pub start_raised-stuck :
    (g : Gst) (m : RecordingManager) (cs : List Call) (c : Call)
    → IsSound m
    → m.is_recording ≡ false
    → m.has_dir ≡ true
    → m.idle ≡ 0
    → g.dir_made ≡ false
    → ((start g m).1 ≡ raised)
      × ((start g m).0.is_recording ≡ true)
      × (act_all cs (start g m).0 ≡ (start g m).0)
      × (answer c (act_all cs (start g m).0) ≡ returned false)
start_raised-stuck g m cs c s i d w f =
    let stuck = record m { is_recording = true } in
    let failed : start g m ≡ (stuck, raised) = start-raised g m i d f in
    let pad : m.tee_pad ≡ none = s.idle_pad i in
    let same = act_all-frozen stuck refl pad w cs in
    rw failed (refl, refl, same, rw same (answer-frozen stuck refl pad w c))
