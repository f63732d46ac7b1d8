-- ===== src/Relay/Departures.antt =====
-- What _remove_spectator_from_mappings leaves of the forwarding table.
use v3xctrl.Base.{◌≡◌, not, ◌&&◌, some, List, [], ◌∷◌, ◌==◌, arith, Option-cases, inl, inr}
use v3xctrl.Base.Dict.{Dict, get, get-put}
use v3xctrl.Base.Sets.{contains, discard, contains-discard}
use v3xctrl.Relay.Types.{Address, address_eq}
use v3xctrl.Relay.Session.{Ports, Session}
use v3xctrl.Relay.State.{Mapping, Relay}
use v3xctrl.Relay.Mappings.{
  drop_target, drop_from_peers, drop_spectator, remove_spectator_from_mappings,
}
use v3xctrl.Relay.Cleanup.{peer_addresses}
use v3xctrl.Relay.Spectators.{reaches}

-- a mapping without one target, which it need not have had
abbrev without_target : Address → Mapping → Mapping
without_target gone m = record m { targets = discard gone m.targets }

reaches-without_target :
    (t gone : Address) (m : Mapping)
    → reaches t (some (without_target gone m)) ≡ (not (gone == t) && contains t m.targets)
reaches-without_target t gone m = contains-discard gone t m.targets

reaches-drop_target :
    (t b gone source : Address) (d : Dict Address Mapping)
    → reaches t (get b (drop_target gone source d))
      ≡ (reaches t (get b d) && not (gone == t && source == b))
unfolding drop_target
reaches-drop_target t b gone source d = elim (Option-cases (get source d)) [
  | inl e ↦ rw (e, drop_target) (ground (arith, address_eq.same_iff source b))
  | inr (m, e) ↦
      rw (e, drop_target)
        (ground (
          arith,
          address_eq.same_iff source b,
          address_eq.same_iff gone t,
          get-put source b (without_target gone m) d,
          reaches-without_target t gone m,
        ))
]

reaches-drop_from_peers :
    (t b gone : Address) (ports : Ports) (d : Dict Address Mapping)
    → reaches t (get b (drop_from_peers gone ports d))
      ≡ (reaches t (get b d) && not (gone == t && contains b (peer_addresses ports)))
unfolding drop_from_peers peer_addresses contains
reaches-drop_from_peers t b gone [] d = ground arith
reaches-drop_from_peers t b gone ((j, p) ∷ ports) d = ground (
  arith,
  reaches-drop_from_peers t b gone ports (drop_target gone p.addr d),
  reaches-drop_target t b gone p.addr d,
)

reaches-drop_spectator :
    (t b : Address) (gone : List Address) (ports : Ports) (d : Dict Address Mapping)
    → reaches t (get b (drop_spectator gone ports d))
      ≡ (reaches t (get b d) && not (contains t gone && contains b (peer_addresses ports)))
unfolding drop_spectator contains
reaches-drop_spectator t b [] ports d = ground arith
reaches-drop_spectator t b (g ∷ gone) ports d = ground (
  arith,
  reaches-drop_spectator t b gone ports (drop_from_peers g ports d),
  reaches-drop_from_peers t b g ports d,
)

-- _remove_spectator_from_mappings: afterwards an address leads to a target exactly if it did before
-- and it is not the case that the target is one of the addresses removed and the source is one
-- of the session's streamer.
pub reaches-remove_spectator :
    (gone : List Address) (s : Session) (r : Relay) (source target : Address)
    → reaches target (get source (remove_spectator_from_mappings gone s r).mappings) ≡ (
        reaches target (get source r.mappings)
        && not (contains target gone && contains source (peer_addresses s.streamer_ports)))
unfolding remove_spectator_from_mappings
reaches-remove_spectator gone s r source target =
    reaches-drop_spectator target source gone s.streamer_ports r.mappings
