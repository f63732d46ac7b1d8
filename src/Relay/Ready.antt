-- ===== src/Relay/Ready.antt =====
-- A session that gets ready: from the announcement to the forwarding table.
use v3xctrl.Base.{
  ℕ, ◌≡◌, refl, ◌∙◌, true, false, Option, none, some, List, [], ◌∷◌, ◌==◌, arith, beq_refl, beq_sym,
}
use v3xctrl.Base.Dict.{get}
use v3xctrl.Base.Sets.{contains, set_eq-contains}
use v3xctrl.Relay.Types.{Address, address_eq}
use v3xctrl.Relay.Session.{Ports, PeerEntry, Session, SpectatorEntry, is_ready}
use v3xctrl.Relay.State.{Mapping, Packet, Relay, Env, send_to}
use v3xctrl.Relay.Mappings.{keep_timestamp, update_mappings, setup_all_spectator_mappings}
use v3xctrl.Relay.Register.{
  send_to_ports, send_peer_info, send_peer_info_to_spectators, announce_ready,
}
use v3xctrl.Relay.Routing.{Lineup, get-update_mappings}
use v3xctrl.Relay.Spectators.{reaches, setup_all_spectator_mappings-Grows}

mappings-send_to :
    (env : Env) (a : Address) (p : Packet) (r : Relay) → (send_to env a p r).mappings ≡ r.mappings
unfolding send_to
mappings-send_to env a p r = ground arith

mappings-send_to_ports :
    (env : Env) (ports : Ports) (r : Relay) → (send_to_ports env ports r).mappings ≡ r.mappings
unfolding send_to_ports
mappings-send_to_ports env [] r = refl
mappings-send_to_ports env ((j, p) ∷ ports) r =
    mappings-send_to_ports env ports _ ∙ mappings-send_to env p.addr _ r

mappings-send_to_spectators :
    (env : Env) (es : List SpectatorEntry) (r : Relay)
    → (send_peer_info_to_spectators env es r).mappings ≡ r.mappings
unfolding send_peer_info_to_spectators
mappings-send_to_spectators env [] r = refl
mappings-send_to_spectators env (e ∷ es) r =
    mappings-send_to_spectators env es _ ∙ mappings-send_to_ports env e.ports r

-- A mapping made for a target leads there, with the old timestamp or the new.
reaches-kept :
    (o : Option Mapping) (to : Address) (now : ℕ)
    → reaches to (some (keep_timestamp o (record { targets = to ∷ []; timestamp = now }))) ≡ true
unfolding keep_timestamp contains
reaches-kept none to now = ground (arith, beq_refl to)
reaches-kept (some m) to now = ground (arith, beq_refl to)

abbrev pub Leads : Relay → Address → Address → Type 0
Leads r from to = reaches to (get from r.mappings) ≡ true

module _ (env : Env) (r : Relay) (s : Session) (sv vv sc vc : PeerEntry)
    (l : Lineup s sv vv sc vc) where
  abbrev pub Connects : Relay → Type 0
  Connects r' =
      Leads r' sv.addr vv.addr
      × Leads r' vv.addr sv.addr
      × Leads r' sc.addr vc.addr
      × Leads r' vc.addr sc.addr

  update_mappings-Connects : Connects (update_mappings env s r)
  update_mappings-Connects = (
    rw (get-update_mappings env r s sv vv sc vc l sv.addr) (
        ground (
          arith,
          l,
          beq_refl sv.addr,
          beq_sym sv.addr vc.addr,
          beq_sym sv.addr sc.addr,
          beq_sym sv.addr vv.addr,
          reaches-kept (get sv.addr r.mappings) vv.addr env.now,
        )),
    rw (get-update_mappings env r s sv vv sc vc l vv.addr) (
        ground (
          arith,
          l,
          beq_refl vv.addr,
          beq_sym vv.addr vc.addr,
          beq_sym vv.addr sc.addr,
          reaches-kept (get vv.addr r.mappings) sv.addr env.now,
        )),
    rw (get-update_mappings env r s sv vv sc vc l sc.addr) (
        ground (
          arith,
          l,
          beq_refl sc.addr,
          beq_sym sc.addr vc.addr,
          reaches-kept (get sc.addr r.mappings) vc.addr env.now,
        )),
    rw (get-update_mappings env r s sv vv sc vc l vc.addr)
        (ground (arith, beq_refl vc.addr, reaches-kept (get vc.addr r.mappings) sc.addr env.now)),
  )

  -- For a ready session whose two roles have their two ports each, at four different addresses,
  -- whatever spectators it has: after the handling of the announcement each streamer address leads
  -- to the viewer address of its port type, and each viewer address to that of the streamer.
  pub announce_ready-Connects : is_ready s ≡ true → Connects (announce_ready env s r)
  unfolding announce_ready send_peer_info
  announce_ready-Connects ready =
      let r1 = update_mappings env s r in
      let r2 = send_peer_info env s r1 in
      let r3 = setup_all_spectator_mappings env s r2 in
      let same2 : r2.mappings ≡ r1.mappings =
        mappings-send_to_ports env s.viewer_ports _
        ∙ mappings-send_to_ports env s.streamer_ports r1 in
      let same4 = mappings-send_to_spectators env s.spectators r3 in
      let grows = setup_all_spectator_mappings-Grows env s r2 in
      let first = update_mappings-Connects in
      rw ready (
        rw same4 (
          grows.kept sv.addr vv.addr (rw same2 first.0),
          grows.kept vv.addr sv.addr (rw same2 first.1),
          grows.kept sc.addr vc.addr (rw same2 first.2),
          grows.kept vc.addr sc.addr (rw same2 first.3),
        ))

-- The mapping of a streamer that already had another target, such as a spectator's, starts anew
-- when the session is announced again: its timestamp is the time of the call, and not the old one.
update_mappings-spectator_resets :
    (env : Env) (r : Relay) (s : Session) (sv vv sc vc : PeerEntry) (l : Lineup s sv vv sc vc)
    (old : Mapping) (watcher : Address)
    → get sv.addr r.mappings ≡ some old
    → contains watcher old.targets ≡ true
    → (vv.addr == watcher) ≡ false
    → get sv.addr (update_mappings env s r).mappings
      ≡ some (record { targets = vv.addr ∷ []; timestamp = env.now })
unfolding keep_timestamp contains
update_mappings-spectator_resets env r s sv vv sc vc l old watcher h m other =
    rw (get-update_mappings env r s sv vv sc vc l sv.addr) (
      ground (
        arith,
        l,
        beq_refl sv.addr,
        beq_sym sv.addr vc.addr,
        beq_sym sv.addr sc.addr,
        beq_sym sv.addr vv.addr,
        set_eq-contains watcher old.targets (vv.addr ∷ []),
      ))
