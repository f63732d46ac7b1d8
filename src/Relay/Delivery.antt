-- ===== src/Relay/Delivery.antt =====
-- What forward_packet does with a packet, against a reference written over the whole target list.
use v3xctrl.Base.{
  ℕ, ◌≡◌, refl, sym, ◌∙◌, ap, Option, Option-cases, inl, inr, Bool, true, none, some, List, [], ◌∷◌,
  ◌++◌, arith, all, if◌then◌else◌,
}
use v3xctrl.Base.Dict.{Dict, get, has, put}
use v3xctrl.Relay.Types.{Address, address_eq}
use v3xctrl.Relay.State.{Mapping, TcpTarget, Sent, datagram, payload, Relay, Env, log_sent}
use v3xctrl.Relay.Forward.{Forwarded, unmapped, deferred, forward_to, forward_packet}
use mathlib.Core.List.{append_assoc, append-nil}

-- The datagrams: one to each target without a TCP target.
pub datagrams : Dict Address TcpTarget → List ℕ → List Address → List Sent
datagrams tcp bytes [] = []
datagrams tcp bytes (a ∷ as') =
    let rest = datagrams tcp bytes as' in
    if has a tcp then rest else datagram a (payload bytes) ∷ rest

-- The deferred sends: the live TCP target of each target that has one.
pub live_targets : Dict Address TcpTarget → List Address → List TcpTarget
live_targets tcp [] = []
live_targets tcp (a ∷ as') =
    let rest = live_targets tcp as' in
    elim (get a tcp) [ none ↦ rest | some t ↦ if t.alive then t ∷ rest else rest ]

-- No UDP write to one of the addresses fails.
abbrev pub all_writable : Env → List Address → Bool
all_writable env as' = all env.udp_ok as'

forward_to-eq :
    (env : Env) (bytes : List ℕ) (as' : List Address) (r : Relay)
    → all_writable env as' ≡ true
    → forward_to env bytes as' r ≡ (
      record r { sent = r.sent ++ datagrams r.tcp_targets bytes as' },
      deferred (live_targets r.tcp_targets as'),
    )
unfolding forward_to datagrams live_targets all log_sent
forward_to-eq env bytes [] r h = ground (arith, append-nil r.sent)
forward_to-eq env bytes (a ∷ as') r h =
    let r' = log_sent (datagram a (payload bytes)) r in
    ground (
      arith,
      forward_to-eq env bytes as' r,
      forward_to-eq env bytes as' r',
      append_assoc r.sent (datagram a (payload bytes) ∷ []) (datagrams r.tcp_targets bytes as'),
    )

abbrev pub targets_of : Option Mapping → List Address
targets_of none = []
targets_of (some m) = m.targets

-- What a packet from an address with this mapping, or with none, leaves and returns.
abbrev pub delivered : ℕ → List ℕ → Address → Relay → Option Mapping → Relay × Forwarded
delivered now bytes addr r none = (r, unmapped)
delivered now bytes addr r (some m) = (
  record r {
    mappings = put addr (record m { timestamp = now }) r.mappings;
    sent = r.sent ++ datagrams r.tcp_targets bytes m.targets;
  },
  deferred (live_targets r.tcp_targets m.targets),
)

-- A packet from an address without a mapping changes nothing and is reported as unmapped. From an
-- address with a mapping, while no UDP write fails: each target gets it once, as a datagram if it has
-- no TCP target, as a deferred send if it has a live one, and not at all if that is dead; the mapping
-- keeps its targets and gets the time of the call; nothing else of the relay changes.
pub forward_packet_lem :
    (env : Env) (bytes : List ℕ) (addr : Address) (r : Relay)
    → all_writable env (targets_of (get addr r.mappings)) ≡ true
    → forward_packet env bytes addr r ≡ delivered env.now bytes addr r (get addr r.mappings)
unfolding forward_packet
forward_packet_lem env bytes addr r w = elim (Option-cases (get addr r.mappings)) [
  | inl h ↦ rw (h, forward_packet) refl
  | inr (m, h) ↦
      let writable : all_writable env m.targets ≡ true =
        sym (ap (λ x. all_writable env (targets_of x)) h) ∙ w in
      rw (h, forward_packet)
        (forward_to-eq env bytes m.targets
          (record r { mappings = put addr (record m { timestamp = env.now }) r.mappings }) writable)
]
