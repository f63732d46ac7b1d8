-- ===== src/Viewer/Gamepads/Active.antt =====
-- The active gamepad: connected, with its settings, and found under its identifier.
use v3xctrl.Base.{
  ℕ, ◌≡◌, refl, String, true, not, ◌&&◌, ◌||◌, Option, none, some, List, [], ◌∷◌, string_eq,
  is_some, arith, Bool-cases, Option-cases, inl, inr,
}
use v3xctrl.Base.Dict.{Dict, get, has, keys}
use v3xctrl.Base.Sets.{contains, set_eq}
use v3xctrl.Viewer.Gamepads.{
  Calibration, Controller, activate, set_active, set_calibration, activate_known, guid_in,
  choose_active, drop_missing, refresh, or_empty_text, is_filled, is_inactive, is_connected,
}

record IsConnected (c : Controller) : Type 0 where
  together : is_some c.active_gamepad ≡ is_some c.active_settings
  connected : is_some c.active_gamepad ≡ true → guid_in c.active_guid (keys c.gamepads) ≡ true

contains-keys : (k : String) (d : Dict String ℕ) → contains k (keys d) ≡ is_some (get k d)
unfolding contains get
contains-keys k [] = refl
contains-keys k ((j, v) ∷ d) = ground (arith, contains-keys k d)

set_active-IsConnected : (guid : String) (c : Controller) → IsConnected (set_active guid c)
unfolding set_active activate guid_in
set_active-IsConnected guid c = ground (arith, contains-keys guid c.gamepads)

-- The gamepad and its settings are set and unset together.
IsPaired : Controller → Type 0
IsPaired c = is_some c.active_gamepad ≡ is_some c.active_settings

set_active-IsPaired : (guid : String) (c : Controller) → IsPaired (set_active guid c)
unfolding IsPaired
set_active-IsPaired guid c = (set_active-IsConnected guid c).together

activate_known-IsPaired :
    (guids : List String) (c : Controller) → IsPaired c → IsPaired (activate_known guids c)
unfolding activate_known
activate_known-IsPaired [] c s = s
activate_known-IsPaired (guid ∷ guids) c s =
    ground (arith, set_active-IsPaired guid c, activate_known-IsPaired guids c s)

choose_active-IsPaired : (c : Controller) → IsPaired c → IsPaired (choose_active c)
unfolding choose_active
choose_active-IsPaired c s = ground (
  arith,
  set_active-IsPaired (or_empty_text c.active_guid) c,
  activate_known-IsPaired (keys c.gamepads) c s,
)

drop_missing-IsConnected : (c : Controller) → IsPaired c → IsConnected (drop_missing c)
unfolding drop_missing IsPaired
drop_missing-IsConnected c s = ground arith

refresh-IsConnected :
    (found : Dict String ℕ) (c : Controller) → IsConnected c → IsConnected (refresh found c)
unfolding refresh
refresh-IsConnected found c s =
    let fresh = record c { gamepads = found; previous_guids = keys found } in
    let paired = choose_active-IsPaired fresh (unfold IsPaired in s.together) in
    let dropped = drop_missing-IsConnected (choose_active fresh) paired in
    ground (arith, s.together, s.connected, dropped.together, dropped.connected)

set_calibration-IsConnected :
    (guid : String) (x : Calibration) (c : Controller)
    → IsConnected c
    → IsConnected (set_calibration guid x c)
unfolding set_calibration
set_calibration-IsConnected guid x c s = record { together = s.together; connected = s.connected }

-- What happens to the controller: a round of its thread, and the calls of set_active and
-- set_calibration.
pub data Event : Type 0 where
  refreshed : Dict String ℕ → Event
  selected : String → Event
  calibrated : String → Calibration → Event

unfoldable pub handle_all : List Event → Controller → Controller
handle_all [] c = c
handle_all (refreshed found ∷ es) c = handle_all es (refresh found c)
handle_all (selected guid ∷ es) c = handle_all es (set_active guid c)
handle_all (calibrated guid x ∷ es) c = handle_all es (set_calibration guid x c)

-- A gamepad that is known under an identifier.
abbrev pub Named : (String → ℕ → Type 0) → Option String → Option ℕ → Type 0
Named Known guid none = Unit {0}
Named Known none (some js) = ⊥
Named Known (some guid) (some js) = Known guid js

module _ (Known : String → ℕ → Type 0) where
  -- Every gamepad of the dictionary is known under its key.
  abbrev pub AreKnown : Dict String ℕ → Type 0
  AreKnown d = (guid : String) (js : ℕ) → get guid d ≡ some js → Known guid js

  -- Whatever the rounds find is known.
  abbrev pub AllFound : List Event → Type 0
  AllFound [] = Unit {0}
  AllFound (refreshed found ∷ es) = AreKnown found × AllFound es
  AllFound (selected guid ∷ es) = AllFound es
  AllFound (calibrated guid x ∷ es) = AllFound es

  -- The active gamepad was found under the active identifier.
  record IsKept (c : Controller) : Type 0 where
    named : Named Known c.active_guid c.active_gamepad
    gamepads : AreKnown c.gamepads

  set_active-IsKept :
      (guid : String) (c : Controller) → AreKnown c.gamepads → IsKept (set_active guid c)
  unfolding set_active activate
  set_active-IsKept guid c known = elim (Option-cases (get guid c.gamepads)) [
    | inl e ↦ rw (e, activate) (record { named = tt; gamepads = known })
    | inr (js, e) ↦ elim (Option-cases (get guid c.settings)) [
      | inl none_set ↦
          rw (e, activate) (rw (none_set, activate) (record { named = tt; gamepads = known }))
      | inr (s, set) ↦
          rw (e, activate)
            (rw (set, activate)
              (elim (Bool-cases (is_filled s)) [
                | inl f ↦ rw f (record { named = known guid js e; gamepads = known })
                | inr f ↦ rw f (record { named = tt; gamepads = known })
              ]))
    ]
  ]

  activate_known-IsKept :
      (guids : List String) (c : Controller) → IsKept c → IsKept (activate_known guids c)
  unfolding activate_known
  activate_known-IsKept [] c k = k
  activate_known-IsKept (guid ∷ guids) c k =
      elim (Bool-cases (has guid c.settings && is_inactive c)) [
        | inl e ↦ rw e (set_active-IsKept guid c k.gamepads)
        | inr e ↦ rw e (activate_known-IsKept guids c k)
      ]

  choose_active-IsKept : (c : Controller) → IsKept c → IsKept (choose_active c)
  unfolding choose_active
  choose_active-IsKept c k = elim (Bool-cases (is_connected c.active_guid c.gamepads)) [
    | inl e ↦ rw e (elim (Bool-cases (is_inactive c)) [
      | inl i ↦ rw i (set_active-IsKept (or_empty_text c.active_guid) c k.gamepads)
      | inr i ↦ rw i k
    ])
    | inr e ↦ rw e (activate_known-IsKept (keys c.gamepads) c k)
  ]

  drop_missing-IsKept : (c : Controller) → IsKept c → IsKept (drop_missing c)
  unfolding drop_missing
  drop_missing-IsKept c k = elim (Bool-cases (guid_in c.active_guid (keys c.gamepads))) [
    | inl e ↦ rw e k
    | inr e ↦ rw e (record { named = tt; gamepads = k.gamepads })
  ]

  refresh-IsKept :
      (found : Dict String ℕ) (c : Controller)
      → AreKnown found
      → IsKept c
      → IsKept (refresh found c)
  unfolding refresh
  refresh-IsKept found c known k =
      let fresh = record c { gamepads = found; previous_guids = keys found } in
      let start : IsKept fresh = record { named = k.named; gamepads = known } in
      let chosen = drop_missing-IsKept (choose_active fresh) (choose_active-IsKept fresh start) in
      elim (Bool-cases (set_eq (keys found) c.previous_guids)) [
        | inl e ↦ rw e k
        | inr e ↦ rw e (record { named = chosen.named; gamepads = chosen.gamepads })
      ]

  set_calibration-IsKept :
      (guid : String) (x : Calibration) (c : Controller)
      → IsKept c
      → IsKept (set_calibration guid x c)
  unfolding set_calibration
  set_calibration-IsKept guid x c k = record { named = k.named; gamepads = k.gamepads }

  -- The active gamepad and its settings go together, it is connected, and it was found under its
  -- identifier.
  pub record IsSound (c : Controller) : Type 0 where
    pub together : is_some c.active_gamepad ≡ is_some c.active_settings
    pub connected : not (is_some c.active_gamepad) || guid_in c.active_guid (keys c.gamepads) ≡ true
    pub named : Named Known c.active_guid c.active_gamepad

  handle_all-keeps :
      (es : List Event) (c : Controller)
      → AllFound es
      → IsConnected c
      → IsKept c
      → IsConnected (handle_all es c) × IsKept (handle_all es c)
  unfolding handle_all
  handle_all-keeps [] c f s k = (s, k)
  handle_all-keeps (refreshed found ∷ es) c f s k =
      handle_all-keeps es (refresh found c) f.1 (refresh-IsConnected found c s)
        (refresh-IsKept found c f.0 k)
  handle_all-keeps (selected guid ∷ es) c f s k =
      handle_all-keeps es (set_active guid c) f (set_active-IsConnected guid c)
        (set_active-IsKept guid c k.gamepads)
  handle_all-keeps (calibrated guid x ∷ es) c f s k =
      handle_all-keeps es (set_calibration guid x c) f (set_calibration-IsConnected guid x c s)
        (set_calibration-IsKept guid x c k)

  -- For any relation of identifiers and gamepads that holds of all that the rounds find, and of the
  -- gamepads at the start: from a sound state, such as the new controller's, after any rounds,
  -- selections and calibrations, there is an active gamepad exactly if there are active settings; if
  -- there is one, the active identifier is that of a connected gamepad, and the relation holds of it
  -- and the active gamepad.
  pub handle_all-IsSound :
      (es : List Event) (c : Controller)
      → AllFound es
      → AreKnown c.gamepads
      → IsSound c
      → IsSound (handle_all es c)
  handle_all-IsSound es c f known sound =
      let connected : IsConnected c = record {
        together = sound.together;
        connected = λ h. ground (arith, sound.connected);
      } in
      let (s, k) =
        handle_all-keeps es c f connected (record { named = sound.named; gamepads = known }) in
      record { together = s.together; connected = ground (arith, s.connected); named = k.named }
