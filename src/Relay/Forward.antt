-- ===== src/Relay/Forward.antt =====
-- forward_packet of PacketRelay.py.
use v3xctrl.Base.{ℕ, none, some, List, [], ◌∷◌, if◌then◌else◌}
use v3xctrl.Base.Dict.{get, put}
use v3xctrl.Relay.Types.{Address, address_eq}
use v3xctrl.Relay.State.{Relay, Env, TcpTarget, datagram, payload, log_sent}

-- The result: None, the deferred TCP targets, or the OSError of `sendto`, which is not caught.
pub data Forwarded : Type 0 where
  unmapped : Forwarded
  deferred : List TcpTarget → Forwarded
  raised : Forwarded

abbrev defer : TcpTarget → Forwarded → Forwarded
defer t (deferred ts) = deferred (t ∷ ts)
defer t unmapped = unmapped
defer t raised = raised

-- `for target in mapping.targets`, in the order of the list
unfoldable pub forward_to : Env → List ℕ → List Address → Relay → Relay × Forwarded
unfolding log_sent
forward_to env bytes [] r = (r, deferred [])
forward_to env bytes (target ∷ targets) r = elim (get target r.tcp_targets) [
  | none ↦
      if env.udp_ok target
      then forward_to env bytes targets (log_sent (datagram target (payload bytes)) r)
      else (r, raised)
  | some t ↦
      let (r', result) = forward_to env bytes targets r in
      (r', if t.alive then defer t result else result)
]

unfoldable pub forward_packet : Env → List ℕ → Address → Relay → Relay × Forwarded
unfolding forward_to
forward_packet env bytes addr r = elim (get addr r.mappings) [
  | none ↦ (r, unmapped)
  | some m ↦
      forward_to env bytes m.targets
        (record r { mappings = put addr (record m { timestamp = env.now }) r.mappings })
]
