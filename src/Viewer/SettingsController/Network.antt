-- ===== src/Viewer/SettingsController/Network.antt =====
-- Settings that are applied to a running connection leave the connection's own settings alone.
use v3xctrl.Base.{
  ℕ, ◌≡◌, refl, ap, ◌∙◌, String, Bool, true, false, Option, none, some, List, [], ◌∷◌, ◌==◌,
  string_eq, nat_eq, all, if◌then◌else◌, arith, Bool-cases, is_some,
}
use v3xctrl.Base.Dict.{Dict, get, keys}
use v3xctrl.Base.Sets.{contains, set_eq-contains}
use v3xctrl.Viewer.SettingsController.{
  Settings, Controller, is_enabled, is_spectating, session_id, server_of, transport_of, same_bool,
  same_value, sections_equal, ports_equal, needs_relay_restart, transport_changed, needs_restart,
  update_display, begin_restart, apply_settings, update_settings, check_network_restart_complete,
}

-- settings["ports"][key]
pub port_of : String → Option (Dict String ℕ) → Option ℕ
port_of key none = none
port_of key (some ports) = get key ports

same_value_eq : (a b : Option ℕ) → same_value a b ≡ true → a ≡ b
unfolding same_value
same_value_eq none none h = refl
same_value_eq none (some b) h = cc
same_value_eq (some a) none h = cc
same_value_eq (some a) (some b) h = ground (arith, nat_eq.same_iff a b)

contains-keys : (k : String) (d : Dict String ℕ) → contains k (keys d) ≡ is_some (get k d)
unfolding contains get
contains-keys k [] = refl
contains-keys k ((j, v) ∷ d) = ground (arith, contains-keys k d)

all-contains :
    (p : String → Bool) (k : String) (ks : List String)
    → all p ks ≡ true
    → contains k ks ≡ true
    → p k ≡ true
unfolding all contains
all-contains p k [] h m = cc
all-contains p k (x ∷ ks) h m = ground (arith, string_eq.same_iff x k, all-contains p k ks)

port_of-sections_equal :
    (key : String) (new old : Option (Dict String ℕ))
    → sections_equal new old ≡ true
    → port_of key new ≡ port_of key old
unfolding port_of sections_equal
port_of-sections_equal key none none h = refl
port_of-sections_equal key none (some d) h = cc
port_of-sections_equal key (some d) none h = cc
port_of-sections_equal key (some new) (some old) h = ground (
  arith,
  set_eq-contains key (keys new) (keys old),
  contains-keys key new,
  contains-keys key old,
  all-contains (λ k. same_value (get k new) (get k old)) key (keys old),
  same_value_eq (get key new) (get key old),
)

same_bool_eq : (a b : Bool) → same_bool a b ≡ true → a ≡ b
unfolding same_bool
same_bool_eq true true h = refl
same_bool_eq true false h = cc
same_bool_eq false true h = cc
same_bool_eq false false h = refl

-- The relay as far as a connection depends on it: the session, the server and the spectator mode.
pub relay_link : Settings → Option (String × String × Bool)
relay_link s = if is_enabled s then some (session_id s, server_of s, is_spectating s) else none

needs_relay_restart-relay_link :
    (c : Controller) (new : Settings)
    → needs_relay_restart c new ≡ false
    → (session_id new == "") ≡ false
    → relay_link new ≡ relay_link c.old_settings
unfolding needs_relay_restart relay_link
needs_relay_restart-relay_link c new h n =
    let old = c.old_settings in
    ground (
      arith,
      same_bool_eq (is_enabled old) (is_enabled new),
      same_bool_eq (is_spectating old) (is_spectating new),
      string_eq.same_iff (session_id old) (session_id new),
      string_eq.same_iff (server_of old) (server_of new),
    )

transport_changed_iff :
    (c : Controller) (new : Settings)
    → transport_changed c new ≡ false
    → transport_of new ≡ transport_of c.old_settings
unfolding transport_changed
transport_changed_iff c new h =
    ground (arith, string_eq.same_iff (transport_of c.old_settings) (transport_of new))

update_display-keeps :
    (c : Controller) (new : Settings)
    → ((update_display new c).old_settings ≡ c.old_settings)
      × ((update_display new c).settings ≡ c.settings)
      × ((update_display new c).user_connected ≡ c.user_connected)
unfolding update_display
update_display-keeps c new = ground arith

update_settings-applied :
    (c : Controller) (new : Settings)
    → c.user_connected ≡ true
    → (update_settings new c).1 ≡ true
    → (needs_restart (update_display new c) new ≡ false)
      × ((update_settings new c).0.settings ≡ new)
unfolding update_settings apply_settings
update_settings-applied c new u h = ground (arith, update_display-keeps c new)

needs_restart-false :
    (c : Controller) (new : Settings)
    → needs_restart c new ≡ false
    → (ports_equal c new ≡ true)
      × (needs_relay_restart c new ≡ false)
      × (transport_changed c new ≡ false)
unfolding needs_restart
needs_restart-false c new h = ground arith

-- If update_settings returns True while the user is connected, and the new settings name a session,
-- then the new settings are in force, and they have the same ports under every key, the same
-- transport, and the same relay: it was off and is off, or was on and is on with the same session,
-- server and spectator mode.
pub update_settings-keeps_network :
    (c : Controller) (new : Settings) (key : String)
    → c.user_connected ≡ true
    → (session_id new == "") ≡ false
    → (update_settings new c).1 ≡ true
    → (port_of key new.ports ≡ port_of key c.old_settings.ports)
      × (transport_of new ≡ transport_of c.old_settings)
      × (relay_link new ≡ relay_link c.old_settings)
      × ((update_settings new c).0.settings ≡ new)
unfolding ports_equal
update_settings-keeps_network c new key u n h =
    let shown = update_display new c in
    let same_old = (update_display-keeps c new).0 in
    let (no_restart, settled) = update_settings-applied c new u h in
    let (ports, relay, transport) = needs_restart-false shown new no_restart in
    (
      port_of-sections_equal key new.ports shown.old_settings.ports ports
          ∙ ap (λ (s : Settings). port_of key s.ports) same_old,
      transport_changed_iff shown new transport ∙ ap transport_of same_old,
      needs_relay_restart-relay_link shown new relay n ∙ ap relay_link same_old,
      settled,
    )

update_settings-restarts :
    (c : Controller) (new : Settings)
    → (update_settings new c).1 ≡ false
    → (update_settings new c).0 ≡ begin_restart new (update_display new c)
unfolding update_settings
update_settings-restarts c new h = ground (
  arith,
  Bool-cases (update_display new c).user_connected,
  Bool-cases (needs_restart (update_display new c) new),
)

-- If update_settings returns False, then the settings in force stay as they are until the restart is
-- complete, and at the first check after that the new ones are in force and none is pending.
pub update_settings-waits :
    (c : Controller) (new : Settings)
    → (update_settings new c).1 ≡ false
    → (let waiting = (update_settings new c).0 in
        let restarted = record waiting { network_restart_complete = true } in
        let checked = (check_network_restart_complete restarted).0 in
        (waiting.settings ≡ c.settings)
        × (waiting.old_settings ≡ c.old_settings)
        × (checked.settings ≡ new)
        × (checked.old_settings ≡ new)
        × (checked.pending_settings ≡ none))
unfolding check_network_restart_complete begin_restart apply_settings
update_settings-waits c new h =
    let (same_old, same, _) = update_display-keeps c new in
    rw (update_settings-restarts c new h) (same, same_old, refl, refl, refl)
