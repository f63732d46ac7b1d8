-- ===== src/Relay/Spectators.antt =====
-- What spectators may do to the forwarding table, and when they stay.
use v3xctrl.Base.{
  ℕ, ◌≡◌, refl, Bool, true, false, ◌||◌, Option, none, some, List, [], ◌∷◌, ◌==◌, arith,
  if◌then◌else◌, nat_eq, beq_refl, Option-cases, inl, inr,
}
use v3xctrl.Base.Dict.{Dict, get, put, get-put}
use v3xctrl.Base.Sets.{contains, contains-add}
use v3xctrl.Relay.Types.{Address, address_eq, PortType, port_type_eq, port_types}
use v3xctrl.Relay.Session.{Ports, PeerEntry, Session, SpectatorEntry, is_complete, get_addresses}
use v3xctrl.Relay.State.{Mapping, Relay, Env}
use v3xctrl.Relay.Mappings.{
  add_target, map_spectator_port, map_spectator_ports, map_spectator, setup_spectator_mappings,
  setup_each_address, setup_spectators, setup_all_spectator_mappings,
}
use v3xctrl.Relay.Cleanup.{peer_addresses}

abbrev pub reaches : Address → Option Mapping → Bool
reaches target none = false
reaches target (some m) = contains target m.targets

-- The table `after` still leads wherever `before` led, and is the same away from `sources`.
pub record Grows (sources : List Address) (before after : Dict Address Mapping) : Type 0 where
  pub kept :
      (a target : Address)
      → reaches target (get a before) ≡ true
      → reaches target (get a after) ≡ true
  pub untouched : (a : Address) → contains a sources ≡ false → get a after ≡ get a before

pub Grows-refl : (sources : List Address) (d : Dict Address Mapping) → Grows sources d d
Grows-refl sources d = record { kept = λ a target h. h; untouched = λ a h. refl }

Grows-trans :
    (sources : List Address) (d e f : Dict Address Mapping)
    → Grows sources d e
    → Grows sources e f
    → Grows sources d f
Grows-trans sources d e f g h = record {
  kept = λ a target m. h.kept a target (g.kept a target m);
  untouched = λ a m. ground (arith, g.untouched a m, h.untouched a m);
}

peer_addresses-get :
    (port_type : PortType) (ports : Ports) (p : PeerEntry)
    → get port_type ports ≡ some p
    → contains p.addr (peer_addresses ports) ≡ true
unfolding get peer_addresses contains
peer_addresses-get port_type [] p h = ground arith
peer_addresses-get port_type ((j, q) ∷ ports) p h =
    ground (arith, peer_addresses-get port_type ports p, beq_refl p.addr)

reaches-add_target :
    (t target : Address) (o : Option Mapping) (now : ℕ)
    → reaches t (some (add_target target o now)) ≡ (target == t || reaches t o)
unfolding add_target contains
reaches-add_target t target none now = refl
reaches-add_target t target (some m) now = contains-add target t m.targets

put_target-Grows :
    (sources : List Address) (a target : Address) (now : ℕ) (d : Dict Address Mapping)
    → contains a sources ≡ true
    → Grows sources d (put a (add_target target (get a d) now) d)
put_target-Grows sources a target now d h = record {
  kept = λ b t m. ground (
    arith,
    get-put a b (add_target target (get a d) now) d,
    address_eq.same_iff a b,
    reaches-add_target t target (get a d) now,
  );
  untouched = λ b m.
      ground (arith, get-put a b (add_target target (get a d) now) d, address_eq.same_iff a b);
}

Grows-choice :
    (sources : List Address) (b : Bool) (r r' : Relay)
    → Grows sources r.mappings r'.mappings
    → Grows sources r.mappings (if b then r' else r).mappings
Grows-choice sources true r r' g = g
Grows-choice sources false r r' g = Grows-refl sources r.mappings

module _ (now : ℕ) (streamers ports : Ports) where
  abbrev sources : List Address
  sources = peer_addresses streamers

  map_spectator_port-Grows :
      (port_type : PortType) (d : Dict Address Mapping)
      → Grows sources d (map_spectator_port now streamers ports port_type d)
  unfolding map_spectator_port
  map_spectator_port-Grows port_type d = elim (Option-cases (get port_type streamers)) [
    | inl e ↦ rw (e, map_spectator_port) (Grows-refl sources d)
    | inr (s, e) ↦
        rw (e, map_spectator_port)
          (elim (Option-cases (get port_type ports)) [
            | inl f ↦ rw (f, map_spectator_port) (Grows-refl sources d)
            | inr (p, f) ↦
                rw (f, map_spectator_port)
                  (put_target-Grows sources s.addr p.addr now d
                    (peer_addresses-get port_type streamers s e))
          ])
  ]

  map_spectator_ports-Grows :
      (types : List PortType) (d : Dict Address Mapping)
      → Grows sources d (map_spectator_ports now streamers ports types d)
  unfolding map_spectator_ports
  map_spectator_ports-Grows [] d = Grows-refl sources d
  map_spectator_ports-Grows (t ∷ types) d =
      let d' = map_spectator_port now streamers ports t d in
      Grows-trans sources d d' (map_spectator_ports now streamers ports types d')
        (map_spectator_port-Grows t d) (map_spectator_ports-Grows types d')

module _ (env : Env) (s : Session) where
  abbrev pub streamer_sources : List Address
  streamer_sources = peer_addresses s.streamer_ports

  map_spectator-Grows :
      (o : Option SpectatorEntry) (r : Relay)
      → Grows streamer_sources r.mappings (map_spectator env.now s o r).mappings
  unfolding map_spectator
  map_spectator-Grows none r = Grows-refl streamer_sources r.mappings
  map_spectator-Grows (some e) r =
      Grows-choice streamer_sources _ r _
        (map_spectator_ports-Grows env.now s.streamer_ports e.ports port_types r.mappings)

  setup_each_address-Grows :
      (as' : List Address) (r : Relay)
      → Grows streamer_sources r.mappings (setup_each_address env s as' r).mappings
  unfolding setup_each_address setup_spectator_mappings
  setup_each_address-Grows [] r = Grows-refl streamer_sources r.mappings
  setup_each_address-Grows (a ∷ as') r =
      let r' = setup_spectator_mappings env s a r in
      Grows-trans streamer_sources r.mappings r'.mappings (setup_each_address env s as' r').mappings
        (map_spectator-Grows _ r) (setup_each_address-Grows as' r')

  setup_spectators-Grows :
      (es : List SpectatorEntry) (r : Relay)
      → Grows streamer_sources r.mappings (setup_spectators env s es r).mappings
  unfolding setup_spectators
  setup_spectators-Grows [] r = Grows-refl streamer_sources r.mappings
  setup_spectators-Grows (e ∷ es) r =
      let r' = if is_complete e then setup_each_address env s (get_addresses e) r else r in
      Grows-trans streamer_sources r.mappings r'.mappings (setup_spectators env s es r').mappings
        (Grows-choice streamer_sources (is_complete e) r
          (setup_each_address env s (get_addresses e) r)
          (setup_each_address-Grows (get_addresses e) r))
        (setup_spectators-Grows es r')

  -- _setup_all_spectator_mappings takes no target from any address, and changes the mapping of
  -- no address but those of the session's streamer: spectators receive and are never a source.
  pub setup_all_spectator_mappings-Grows :
      (r : Relay)
      → Grows streamer_sources r.mappings (setup_all_spectator_mappings env s r).mappings
  unfolding setup_all_spectator_mappings
  setup_all_spectator_mappings-Grows r = setup_spectators-Grows s.spectators r
