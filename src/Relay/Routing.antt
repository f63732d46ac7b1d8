-- ===== src/Relay/Routing.antt =====
-- What _update_mappings writes: the forwarding table of a ready session, address by address.
use v3xctrl.Base.{
  ℕ, ◌≡◌, refl, true, false, Option, none, some, List, [], ◌∷◌, ◌==◌, arith, if◌then◌else◌,
  string_eq,
}
use v3xctrl.Base.Dict.{Dict, get, put, pop, get-put, get-pop}
use v3xctrl.Base.Sets.{contains}
use v3xctrl.Relay.Types.{Address, address_eq, port_type_eq, video, control}
use v3xctrl.Relay.Session.{PeerEntry, Session}
use v3xctrl.Relay.State.{Mapping, Relay, Env}
use v3xctrl.Relay.Mappings.{
  add_pair, new_mappings, keep_timestamp, keep_timestamps, pop_mappings, put_mappings,
  has_all_ports, update_mappings,
}

-- The four peers of a ready session, at four addresses.
pub record Lineup (s : Session) (sv vv sc vc : PeerEntry) : Type 0 where
  pub streamer_full : has_all_ports s.streamer_ports ≡ true
  pub viewer_full : has_all_ports s.viewer_ports ≡ true
  pub streamer_video : get video s.streamer_ports ≡ some sv
  pub viewer_video : get video s.viewer_ports ≡ some vv
  pub streamer_control : get control s.streamer_ports ≡ some sc
  pub viewer_control : get control s.viewer_ports ≡ some vc
  pub sv_vv : (sv.addr == vv.addr) ≡ false
  pub sv_sc : (sv.addr == sc.addr) ≡ false
  pub sv_vc : (sv.addr == vc.addr) ≡ false
  pub vv_sc : (vv.addr == sc.addr) ≡ false
  pub vv_vc : (vv.addr == vc.addr) ≡ false
  pub sc_vc : (sc.addr == vc.addr) ≡ false

abbrev link : Address → Address → ℕ → Address × Mapping
link from to now = (from, record { targets = to ∷ []; timestamp = now })

module _ (s : Session) (sv vv sc vc : PeerEntry) (l : Lineup s sv vv sc vc) where
  new_mappings_lem :
      (now : ℕ)
      → new_mappings now s
        ≡ link sv.addr vv.addr now
          ∷ link vv.addr sv.addr now
          ∷ link sc.addr vc.addr now
          ∷ link vc.addr sc.addr now
          ∷ []
  unfolding new_mappings add_pair put
  new_mappings_lem now = ground (arith, l)

-- After the addresses of the session are popped, theirs alone are gone.
get-pop_mappings :
    (a : Address) (as' : List Address) (d : Dict Address Mapping)
    → get a (pop_mappings as' d) ≡ (if contains a as' then none else get a d)
unfolding pop_mappings contains
get-pop_mappings a [] d = refl
get-pop_mappings a (x ∷ as') d = ground (arith, get-pop_mappings a as' (pop x d), get-pop x a d)

-- The mapping that leads from one address to another: an old one with just that target keeps its
-- timestamp.
abbrev pub routed : Relay → ℕ → Address → Address → Option Mapping
routed r now from to =
    some (keep_timestamp (get from r.mappings) (record { targets = to ∷ []; timestamp = now }))

-- The table of a ready session, as a function of the address.
abbrev pub routing_table :
    Relay → ℕ → Session → PeerEntry → PeerEntry → PeerEntry → PeerEntry → Address → Option Mapping
routing_table r now s sv vv sc vc a =
    if vc.addr == a
    then routed r now vc.addr sc.addr
    else if sc.addr == a
    then routed r now sc.addr vc.addr
    else if vv.addr == a
    then routed r now vv.addr sv.addr
    else if sv.addr == a
    then routed r now sv.addr vv.addr
    else if contains a s.addresses
    then none
    else get a r.mappings

module _ (env : Env) (r : Relay) (s : Session) (sv vv sc vc : PeerEntry)
    (l : Lineup s sv vv sc vc) where
  abbrev kept_link : Address → Address → Mapping
  kept_link from to =
      keep_timestamp (get from r.mappings) (record { targets = to ∷ []; timestamp = env.now })

  mappings-update_mappings :
      (update_mappings env s r).mappings
      ≡ put vc.addr (kept_link vc.addr sc.addr) (
          put sc.addr (kept_link sc.addr vc.addr) (
            put vv.addr
              (kept_link vv.addr sv.addr)
              (put sv.addr (kept_link sv.addr vv.addr) (pop_mappings s.addresses r.mappings))))
  unfolding update_mappings keep_timestamps put_mappings
  mappings-update_mappings =
      rw (l.streamer_full, l.viewer_full) (rw (new_mappings_lem s sv vv sc vc l env.now) refl)

  pub get-update_mappings :
      (a : Address)
      → get a (update_mappings env s r).mappings ≡ routing_table r env.now s sv vv sc vc a
  get-update_mappings a = rw mappings-update_mappings (simp (get-put, get-pop_mappings) refl)
