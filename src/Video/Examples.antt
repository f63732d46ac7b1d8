-- ===== src/Video/Examples.antt =====
-- The video components at concrete inputs.
use v3xctrl.Base.{ℕ, ◌⊎◌, false, ◌≡◌, refl, none, some, true, List, [], ◌∷◌, ◌++◌, arith, nat_eq}
use v3xctrl.Base.Dict.{get}
use v3xctrl.Base.Bytes.{Bytes, pos, pack_i64, pack_u64}
use v3xctrl.Video.Sei.{build_sei_nal, parse_sei_nal, start_code, sei_header, sei_uuid}
use v3xctrl.Video.Sei.RoundTrip.{parse-build_sei_nal}
use v3xctrl.Video.Injector.{
  Buffer, Pending, Passage, entered, left, pass_all, on_pre_encode, on_post_encode, post-pre_encode,
}
use v3xctrl.Video.Qp.{QpManager, new_manager}
use v3xctrl.Video.Recording
use v3xctrl.Video.Recording.{Gst, start, stop, no_eos, torn_down, returned, raised}
use v3xctrl.Video.Recording.Leaks.{
  Call, start_call, stop_call, act, act_all, answer, pad_list, act_all-leaks_nothing,
  start_raised-stuck, new_manager-IsSound,
}
use v3xctrl.Video.Window.{append}
use v3xctrl.Video.Window.Recent.{recent, append-eq-recent}

-- the unit for a timestamp of 1000 microseconds
abbrev unit : Bytes
unit =
    start_code
    ++ (sei_header ++ ((sei_uuid ++ (0 ∷ 0 ∷ 0 ∷ 0 ∷ 0 ∷ 0 ∷ 3 ∷ 232 ∷ [])) ++ (0x80 ∷ [])))

built : build_sei_nal (pos 1000) ≡ some unit
unfolding build_sei_nal pack_i64 pack_u64
built = refl

parse-build_sei_nal_example : parse_sei_nal (unit ++ (1 ∷ 2 ∷ [])) ≡ some (pos 1000)
parse-build_sei_nal_example = parse-build_sei_nal (pos 1000) unit (1 ∷ 2 ∷ []) built

abbrev buffer : Buffer
buffer = record { pts = 40; dts = 40; duration = 33; offset = 0; bytes = 1 ∷ 2 ∷ [] }

-- The next frame enters, and the one before leaves.
abbrev others : List Passage
others = entered 1033 41 ∷ left true (record buffer { pts = 39 }) ∷ []

post-pre_encode_example :
    (p : Pending) × (b : Buffer) × (on_post_encode true buffer
        (pass_all others (on_pre_encode 1000 40 []))
      ≡ some (p, b))
    × (b.pts ≡ 40)
    × (parse_sei_nal b.bytes ≡ some (pos 1000))
    × (get 40 p ≡ none)
post-pre_encode_example =
    post-pre_encode 1000 unit buffer [] others built (omega arith, (omega arith, tt))

abbrev manager : QpManager
manager = new_manager 1000 20 24 1 5 0 85

abbrev samples : List (ℕ × ℕ)
samples = (6, 5) ∷ (8, 2) ∷ []

abbrev latest_value : ℕ
latest_value = 1

append-eq-recent_example :
    append 3 10 latest_value samples ≡ recent 3 10 samples ++ ((10, latest_value) ∷ [])
append-eq-recent_example = append-eq-recent 3 10 latest_value samples (omega arith) (omega arith)

-- A GStreamer whose calls all succeed, and one at which the parser cannot be linked.
abbrev willing : Gst
willing = record {
  dir_made = true;
  queue_made = true;
  parser_made = true;
  muxer_made = true;
  filesink_made = true;
  queue_linked = true;
  parser_linked = true;
  muxer_linked = true;
  pad_given = true;
  tee_linked = true;
}

-- One failed start, a recording whose stop runs out of time, and one that goes on.
abbrev calls : List Call
calls =
    start_call (record willing { parser_linked = false })
    ∷ start_call willing
    ∷ stop_call no_eos
    ∷ start_call willing
    ∷ []

recorded : act_all calls (Recording.new_manager true) ≡ record (Recording.new_manager true) {
  is_recording = true;
  elements = 9 ∷ 10 ∷ 11 ∷ 12 ∷ [];
  pipeline = 9 ∷ 10 ∷ 11 ∷ 12 ∷ [];
  tee_pad = some 13;
  pads = 13 ∷ [];
  next = 14;
}
unfolding act_all act start stop Recording.new_manager
recorded = refl

act_all-leaks_nothing_example :
    let m = act_all calls (Recording.new_manager true) in
    (m.pipeline ≡ m.elements)
    × (m.pads ≡ pad_list m.tee_pad)
    × ((m.is_recording ≡ true) ⊎ ((m.pipeline ≡ []) × (m.pads ≡ [])))
act_all-leaks_nothing_example = act_all-leaks_nothing true calls

start_raised-stuck_example :
    let full = record willing { dir_made = false } in
    let m = Recording.new_manager true in
    ((start full m).1 ≡ raised)
    × ((start full m).0.is_recording ≡ true)
    × (act_all calls (start full m).0 ≡ (start full m).0)
    × (answer (stop_call torn_down) (act_all calls (start full m).0) ≡ returned false)
unfolding Recording.new_manager
start_raised-stuck_example =
    start_raised-stuck (record willing { dir_made = false }) (Recording.new_manager true) calls
      (stop_call torn_down) (new_manager-IsSound true) refl refl refl refl
