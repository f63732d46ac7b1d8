-- ===== src/Telemetry/Sampler.antt =====
-- Telemetry.py of v3xctrl_control: the thread that collects telemetry, its modem that comes and goes,
-- and what each source leaves in the payload. What the sources answer is an argument.
pub mod Modem
use v3xctrl.Base.{
  ℕ, zero, suc, ◌+◌, String, Bool, true, false, not, Option, none, some, List, [], ◌∷◌, ltb,
  if◌then◌else◌,
}

abbrev pub sim_recheck_interval : ℕ
sim_recheck_interval = 30

-- What _init_modem meets: an exception, a SIM status other than "OK", or a modem that is ready. (The
-- modem that its constructor returns is never false.)
pub data Probe : Type 0 where
  failed no_sim ready : Probe

-- A signal or a cell that is not known is `none`: -1, and "?", in the payload.
pub record Payload : Type 0 where
  -- rsrq and rsrp, as the modem gives them
  pub sig : Option (ℕ × ℕ)
  -- id and band
  pub cell : Option (String × String)
  pub loc : ℕ
  pub bat : ℕ
  pub svc : ℕ
  pub vc : ℕ
  pub gst : ℕ

pub record Telemetry : Type 0 where
  pub modem : Bool
  pub modem_init_failed : Bool
  pub sim_absent : Bool
  pub sim_recheck_counter : ℕ
  pub payload : Payload
  -- how often _init_modem was called
  pub probes : ℕ

-- _init_modem
unfoldable pub init_modem : Probe → Telemetry → Telemetry × Bool
init_modem failed t =
    (record t { modem = false; modem_init_failed = true; probes = t.probes + 1 }, false)
init_modem no_sim t = (record t { modem = false; sim_absent = true; probes = t.probes + 1 }, false)
init_modem ready t = (
  record t { modem = true; sim_absent = false; modem_init_failed = false; probes = t.probes + 1 },
  true,
)

-- _modem_available
unfoldable pub modem_available : Probe → Telemetry → Telemetry × Bool
unfolding init_modem
modem_available probe t =
    let counted = record t { sim_recheck_counter = t.sim_recheck_counter + 1 } in
    if t.modem
    then (t, true)
    else if not t.sim_absent
    then init_modem probe t
    else if ltb counted.sim_recheck_counter sim_recheck_interval
    then (counted, false)
    else init_modem probe (record t { sim_recheck_counter = 0 })

-- `none` is an exception of the modem.
unfoldable pub update_signal : Option (ℕ × ℕ) → Telemetry → Telemetry
update_signal signal t =
    if t.modem
    then (elim signal [
      | none ↦ record t { payload = record (t.payload) { sig = none }; modem = false }
      | some s ↦ record t { payload = record (t.payload) { sig = some s } }
    ])
    else t

unfoldable pub update_cell : Option (String × String) → Telemetry → Telemetry
update_cell cell t =
    if t.modem
    then (elim cell [
      | none ↦ record t { payload = record (t.payload) { cell = none }; modem = false }
      | some c ↦ record t { payload = record (t.payload) { cell = some c } }
    ])
    else t

-- What a source gives: it is missing, it raises, or it has a value.
pub data Source : Type 0 where
  missing raises : Source
  value : ℕ → Source

-- The services, the VideoCore and GStreamer: an exception leaves the flags 0.
unfoldable pub flags : Source → ℕ → ℕ
flags missing old = old
flags raises old = 0
flags (value new) old = new

-- The location, which stays after an exception.
unfoldable pub location : Source → ℕ → ℕ
location (value new) old = new
location _ old = old

pub record Answers : Type 0 where
  pub probe : Probe
  pub signal : Option (ℕ × ℕ)
  pub cell : Option (String × String)
  pub gps : Source
  pub battery : Source
  pub services : Source
  pub videocore : Source
  pub gst : Source

unfoldable pub update_modem : Answers → Telemetry → Telemetry
unfolding modem_available update_signal update_cell
update_modem a t =
    let (t', available) = modem_available a.probe t in
    if available then update_cell a.cell (update_signal a.signal t') else t'

-- _update_gps, then _update_battery, whose exception is not caught and ends the thread; the flag is false then.
unfoldable pub update_others : Answers → Payload → Payload × Bool
unfolding flags location
update_others a p =
    let located = record p { loc = location a.gps p.loc } in
    let rest = λ (q : Payload). record q {
      svc = flags a.services q.svc;
      vc = flags a.videocore q.vc;
      gst = flags a.gst q.gst;
    } in
    elim a.battery [
      | missing ↦ (rest located, true)
      | raises ↦ (located, false)
      | value state ↦ (rest (record located { bat = state }), true)
    ]

-- One round of run; the flag says whether the thread goes on.
unfoldable pub round : Answers → Telemetry → Telemetry × Bool
unfolding update_modem update_others
round a t =
    let t' = update_modem a t in
    let (p, goes_on) = update_others a t'.payload in (record t' { payload = p }, goes_on)

-- run, until it ends by an exception or the answers are over
unfoldable pub run_rounds : List Answers → Telemetry → Telemetry
unfolding round
run_rounds [] t = t
run_rounds (a ∷ as') t =
    let (t', goes_on) = round a t in let later = run_rounds as' t' in if goes_on then later else t'
