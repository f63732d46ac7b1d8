-- ===== src/Relay/Examples.antt =====
-- The relay on a small session: a streamer and a viewer with two ports each, and a spectator.
use v3xctrl.Base.{
  ◌==◌, ◌&&◌, not, ℕ, ◌++◌, inr, ◌⊎◌, ◌≡◌, refl, true, false, none, some, [], ◌∷◌, nat_eq,
  string_eq, all, any,
}
use v3xctrl.Base.Dict.{get}
use v3xctrl.Base.Sets.{contains}
use v3xctrl.Relay.Types.{Address, address_eq, same_address, port_type_eq, video, control, udp}
use v3xctrl.Relay.Session.{PeerEntry, Ports, Session, SpectatorEntry, is_ready, is_role_ready}
use v3xctrl.Relay.State.{Relay, Env, Mapping, new_relay}
use v3xctrl.Relay.Mappings.{update_mappings, remove_spectator_from_mappings}
use v3xctrl.Relay.Forward.{forward_packet}
use v3xctrl.Relay.Register.{announce_ready}
use v3xctrl.Relay.Cleanup.{peer_addresses}
use v3xctrl.Relay.Register.{PeerAnnouncement}
use v3xctrl.Relay.Server.{Wire, announcement, peer_announcement_prefix, handle_datagram}
use v3xctrl.Relay.Dispatch.{handle_datagram-ignores}
use v3xctrl.Relay.Routing.{Lineup}
use v3xctrl.Relay.Overwrite.{holds_address, update_mappings-exclusive}
use v3xctrl.Relay.Delivery.{targets_of, delivered, all_writable, forward_packet_lem}
use v3xctrl.Relay.Spectators.{reaches}
use v3xctrl.Relay.Departures.{reaches-remove_spectator}
use v3xctrl.Relay.Ready.{Connects, announce_ready-Connects}
use v3xctrl.Relay.Store.{
  Row, Table, Result, ok, create, delete, generate_unique_id_pair, generate_unique_id, is_used,
  insert,
}
use v3xctrl.Relay.Store
use v3xctrl.Relay.Bot
use v3xctrl.Relay.Bot.{Contact, forbidden, Testdrives, finish_accept}
use v3xctrl.Relay.Bot.Deliveries.{finish_accept-rolled_back}
use v3xctrl.Relay.Store.Unique.{create-found}

abbrev at : ℕ → Address
at port = record { host = "10.0.0.1"; port = port }

abbrev peer : ℕ → PeerEntry
peer port = record { addr = at port; transport = udp; ts = 5 }

abbrev both : ℕ → ℕ → Ports
both a b = (video, peer a) ∷ (control, peer b) ∷ []

abbrev watcher : SpectatorEntry
watcher = record { ref = 0; ports = both 5 6; created_at = 5; last_announcement_at = 5 }

abbrev ready : Session
ready = record {
  id = "s";
  streamer_ports = both 1 2;
  viewer_ports = both 3 4;
  spectators = watcher ∷ [];
  addresses = at 1 ∷ at 2 ∷ at 3 ∷ at 4 ∷ at 5 ∷ at 6 ∷ [];
  created_at = 5;
  last_announcement_at = 5;
}

abbrev stale : Mapping
stale = record { targets = at 3 ∷ at 5 ∷ []; timestamp = 5 }

-- The relay before the session is announced again, with an older session at one of the addresses.
abbrev before : Relay
before = record (new_relay "10.0.0.9" 9000 30) {
  mappings = (at 1, stale) ∷ [];
  sessions = ("s", ready) ∷ ("old", record ready { id = "old" }) ∷ [];
}

abbrev env : Env
env = record {
  now = 50;
  exists = λ sid. true;
  session_of_spectator = λ sid. none;
  write_ok = λ sock. true;
  udp_ok = λ addr. true;
}

lineup : Lineup ready (peer 1) (peer 3) (peer 2) (peer 4)
unfolding get same_address
lineup = record {
  streamer_full = refl;
  viewer_full = refl;
  streamer_video = refl;
  viewer_video = refl;
  streamer_control = refl;
  viewer_control = refl;
  sv_vv = refl;
  sv_sc = refl;
  sv_vc = refl;
  vv_sc = refl;
  vv_vc = refl;
  sc_vc = refl;
}

is_ready_now : is_ready ready ≡ true
unfolding is_ready is_role_ready get all
is_ready_now = refl

announce_ready-Connects_example :
    Connects env before ready
      (peer 1)
      (peer 3)
      (peer 2)
      (peer 4)
      lineup
      (announce_ready env ready before)
announce_ready-Connects_example =
    announce_ready-Connects env before ready (peer 1) (peer 3) (peer 2) (peer 4) lineup is_ready_now

-- A session that shares no address with the one that is announced.
abbrev far : Session
far = record ready { id = "far"; addresses = at 9 ∷ [] }

abbrev crowded : Relay
crowded = record before { sessions = ("far", far) ∷ before.sessions }

update_mappings-exclusive_example :
    (get ready.id (update_mappings env ready crowded).sessions ≡ get ready.id crowded.sessions)
    × ((get "far" (update_mappings env ready crowded).sessions ≡ get "far" crowded.sessions)
        ⊎ (get "far" (update_mappings env ready crowded).sessions ≡ none))
    × (not ("far" == ready.id)
          && contains (at 1) ready.addresses
          && holds_address (at 1) (get "far" (update_mappings env ready crowded).sessions)
        ≡ false)
update_mappings-exclusive_example =
    update_mappings-exclusive env crowded ready (refl, refl) "far" (at 1)

writable : all_writable env (targets_of (get (at 1) before.mappings)) ≡ true
unfolding get same_address all
writable = refl

forward_packet_lem_example :
    forward_packet env (7 ∷ []) (at 1) before
    ≡ delivered env.now (7 ∷ []) (at 1) before (get (at 1) before.mappings)
forward_packet_lem_example = forward_packet_lem env (7 ∷ []) (at 1) before writable

reaches-remove_spectator_example :
    reaches (at 5) (get (at 1) (remove_spectator_from_mappings (at 5 ∷ []) ready before).mappings)
    ≡ false
unfolding get same_address contains peer_addresses
reaches-remove_spectator_example = reaches-remove_spectator (at 5 ∷ []) ready before (at 1) (at 5)

abbrev user_row : Row
user_row = record {
  id = "aaaa";
  spectator_id = "bbbb";
  discord_user_id = "7";
  discord_username = "ann";
}

create-found_example :
    (Store.get "7" (user_row ∷ []) ≡ some ("aaaa", "bbbb"))
    × (Store.exists "aaaa" (user_row ∷ []) ≡ true)
    × (Store.get_session_id_from_spectator_id "bbbb" (user_row ∷ []) ≡ some "aaaa")
unfolding create generate_unique_id_pair generate_unique_id is_used any insert
create-found_example =
    create-found "7" "ann" ("aaaa" ∷ "bbbb" ∷ []) [] (user_row ∷ []) "aaaa" "bbbb" refl

-- A test drive whose guest takes no messages, while another one goes on.
abbrev refusing : Contact
refusing = record { guest_found = true; to_host = Bot.delivered; to_guest = forbidden }

abbrev one_request : Testdrives
one_request = record { pending_requests = ("21", 5) ∷ []; store = user_row ∷ [] }

finish_accept-rolled_back_example :
    ((finish_accept "21" "22" "bob" ("cccc" ∷ "dddd" ∷ []) refusing one_request).0.store
      ≡ user_row ∷ [])
    × (get "21"
          (finish_accept "21" "22" "bob"
            ("cccc" ∷ "dddd" ∷ [])
            refusing
            one_request).0.pending_requests
        ≡ none)
unfolding finish_accept create generate_unique_id_pair generate_unique_id is_used any insert
    Bot.composed_key
finish_accept-rolled_back_example =
    finish_accept-rolled_back "21" "22" "bob" ("cccc" ∷ "dddd" ∷ []) refusing one_request refl

-- Bytes that begin like an announcement and that Message.from_bytes refuses.
handle_datagram-ignores_example :
    handle_datagram env (λ d. none) (peer_announcement_prefix ++ (0 ∷ [])) (at 8) before ≡ before
unfolding get same_address new_relay
handle_datagram-ignores_example =
    handle_datagram-ignores env (λ d. none) (peer_announcement_prefix ++ (0 ∷ [])) (at 8) before
      (inr refl) refl refl

abbrev greeting : PeerAnnouncement
greeting = record { role = "streamer"; id = "s"; port_type = "video" }

-- A reading of the wire by which each message is the greeting.
abbrev greets : Wire
greets d = some (announcement greeting)
