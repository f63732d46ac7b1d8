-- ===== src/Viewer/SettingsController.antt =====
-- SettingsController.py: which settings are applied at once and which wait for a restart of the
-- network. Of the settings it holds what this code reads; `none` is a key that is not there.
pub mod Network
use v3xctrl.Base.{
  ℕ, String, Bool, true, false, not, ◌&&◌, ◌||◌, Option, none, some, List, [], ◌∷◌, ◌++◌, ◌==◌,
  string_eq, nat_eq, all, if◌then◌else◌,
}
use v3xctrl.Base.Dict.{Dict, get, keys}
use v3xctrl.Base.Sets.{set_eq}

pub record RelaySection : Type 0 where
  pub enabled : Option Bool
  pub spectator_mode : Option Bool
  pub id : Option String
  pub server : Option String

pub record Settings : Type 0 where
  pub fullscreen : Option Bool
  pub ports : Option (Dict String ℕ)
  pub relay : Option RelaySection
  pub transport : Option String

pub data Component : Type 0 where
  timing network input osd renderer : Component

pub record Controller : Type 0 where
  pub settings : Settings
  pub old_settings : Settings
  -- of the ApplicationModel
  pub fullscreen : Bool
  pub user_connected : Bool
  pub pending_settings : Option Settings
  -- whether create_network_restart_thread and on_display_update are set, and which components have
  -- a callback
  pub can_restart : Bool
  pub has_display : Bool
  pub listeners : List Component
  -- the threads started, the calls of the components' callbacks and of on_display_update
  pub restarts : List Settings
  pub updates : List (Component × Settings)
  pub displays : List Bool
  pub network_restart_complete : Bool

-- section.get(key, default)
unfoldable pub get_or : {A : Type 0} → A → Option A → A
get_or default none = default
get_or default (some a) = a

abbrev pub empty_relay : RelaySection
empty_relay = record { enabled = none; spectator_mode = none; id = none; server = none }

-- settings.get("relay", {})
unfoldable pub relay_of : Settings → RelaySection
unfolding get_or
relay_of s = get_or empty_relay s.relay

unfoldable pub is_enabled : Settings → Bool
unfolding relay_of get_or
is_enabled s = get_or false (relay_of s).enabled

unfoldable pub is_spectating : Settings → Bool
unfolding relay_of get_or
is_spectating s = get_or false (relay_of s).spectator_mode

unfoldable pub session_id : Settings → String
unfolding relay_of get_or
session_id s = get_or "" (relay_of s).id

unfoldable pub server_of : Settings → String
unfolding relay_of get_or
server_of s = get_or "" (relay_of s).server

unfoldable pub transport_of : Settings → String
unfolding get_or
transport_of s = get_or "udp" s.transport

unfoldable pub same_bool : Bool → Bool → Bool
same_bool true b = b
same_bool false b = not b

-- The equality of two answers of dict.get.
unfoldable pub same_value : Option ℕ → Option ℕ → Bool
same_value none none = true
same_value (some a) (some b) = a == b
same_value _ _ = false

unfoldable pub sections_equal : Option (Dict String ℕ) → Option (Dict String ℕ) → Bool
unfolding same_value
sections_equal none none = true
sections_equal (some new) (some old) =
    set_eq (keys new) (keys old) && all (λ k. same_value (get k new) (get k old)) (keys old)
sections_equal _ _ = false

-- settings_equal for the key "ports"
unfoldable pub ports_equal : Controller → Settings → Bool
unfolding sections_equal
ports_equal c new = sections_equal new.ports c.old_settings.ports

unfoldable pub needs_relay_restart : Controller → Settings → Bool
unfolding same_bool is_enabled is_spectating session_id server_of
needs_relay_restart c new =
    let old = c.old_settings in
    let has_session_id = not (session_id new == "") in
    if not (same_bool (is_enabled old) (is_enabled new)) && has_session_id
    then true
    else if is_enabled new
        && (not (session_id old == session_id new)
            || (not (server_of old == server_of new)
                || not (same_bool (is_spectating old) (is_spectating new))))
    then true
    else not (is_enabled new) && (not (is_spectating old) && (is_spectating new && has_session_id))

unfoldable pub transport_changed : Controller → Settings → Bool
unfolding transport_of
transport_changed c new = not (transport_of c.old_settings == transport_of new)

unfoldable pub has_listener : Component → List Component → Bool
has_listener x [] = false
has_listener timing (timing ∷ l) = true
has_listener network (network ∷ l) = true
has_listener input (input ∷ l) = true
has_listener osd (osd ∷ l) = true
has_listener renderer (renderer ∷ l) = true
has_listener x (_ ∷ l) = has_listener x l

-- The callbacks of the components that have one, in order.
unfoldable pub notify : List Component → List Component → Settings → List (Component × Settings)
unfolding has_listener
notify [] listeners s = []
notify (x ∷ xs) listeners s =
    let rest = notify xs listeners s in if has_listener x listeners then (x, s) ∷ rest else rest

abbrev pub order : List Component
order = timing ∷ network ∷ input ∷ osd ∷ renderer ∷ []

unfoldable pub apply_settings : Settings → Controller → Controller
unfolding notify
apply_settings new c = record c {
  settings = new;
  old_settings = new;
  updates = c.updates ++ notify order c.listeners new;
}

-- `if fullscreen_previous != fullscreen_new and self.on_display_update`
unfoldable pub update_display : Settings → Controller → Controller
unfolding get_or same_bool
update_display new c =
    let wanted = get_or false new.fullscreen in
    if not (same_bool c.fullscreen wanted) && c.has_display
    then record c { displays = c.displays ++ (wanted ∷ []) }
    else c

unfoldable pub needs_restart : Controller → Settings → Bool
unfolding ports_equal needs_relay_restart transport_changed
needs_restart c new =
    not (ports_equal c new) || (needs_relay_restart c new || transport_changed c new)

unfoldable pub begin_restart : Settings → Controller → Controller
begin_restart new c = record c {
  pending_settings = some new;
  restarts = if c.can_restart then c.restarts ++ (new ∷ []) else c.restarts;
}

unfoldable pub update_settings : Settings → Controller → Controller × Bool
unfolding update_display needs_restart begin_restart apply_settings
update_settings new c =
    let shown = update_display new c in
    if not shown.user_connected
    then (apply_settings new shown, true)
    else if needs_restart shown new
    then (begin_restart new shown, false)
    else (apply_settings new shown, true)

unfoldable pub check_network_restart_complete : Controller → Controller × Bool
unfolding apply_settings
check_network_restart_complete c =
    if c.network_restart_complete
    then (let cleared = record c { network_restart_complete = false } in
        elim c.pending_settings [
          | none ↦ (cleared, true)
          | some new ↦ (record (apply_settings new cleared) { pending_settings = none }, true)
        ])
    else (c, false)
