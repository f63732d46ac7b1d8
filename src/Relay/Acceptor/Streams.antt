-- ===== src/Relay/Acceptor/Streams.antt =====
-- A TCP peer's connection, against the packets that it sends.
use v3xctrl.Base.{ℕ, suc, List, [], ◌∷◌, length, if◌then◌else◌}
use v3xctrl.Base.Bytes.{Bytes}
use v3xctrl.Tcp.Framing.RoundTrip.{frames}
use v3xctrl.Relay.Types.{Address, Role, PortType}
use v3xctrl.Relay.State.{Relay, Env}
use v3xctrl.Relay.Forward.{unmapped, deferred, raised, forward_packet}
use v3xctrl.Relay.Server.{send_all_deferred}
use v3xctrl.Relay.Acceptor.{is_monitored}

-- The packets forwarded one after another, as far as no OSError comes.
unfoldable pub forward_each : (ℕ → Env) → ℕ → Address → List Bytes → Relay → Relay
forward_each envs n addr [] r = r
forward_each envs n addr (m ∷ ms) r =
    let (r', forwarded) = forward_packet (envs n) m addr r in
    elim forwarded [
      | raised ↦ r'
      | unmapped ↦ forward_each envs (suc n) addr ms r'
      | deferred ts ↦ forward_each envs (suc n) addr ms (send_all_deferred (envs n) m ts r')
    ]

-- The rounds that a connection takes after its announcement: one for each byte of a peer that is only
-- monitored, and one for each packet of any other.
abbrev pub rounds_of : Role → PortType → List Bytes → ℕ
rounds_of role pt ms = if is_monitored role pt then length (frames ms) else length ms

-- What the packets do: those of a monitored peer are thrown away.
abbrev pub relayed : Role → PortType → (ℕ → Env) → Address → List Bytes → Relay → Relay
relayed role pt envs addr ms r = if is_monitored role pt then r else forward_each envs 1 addr ms r
