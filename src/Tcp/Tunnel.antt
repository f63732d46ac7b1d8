-- ===== src/Tcp/Tunnel.antt =====
-- TcpTunnel.py and TcpServer.py: the retries of a connection, its handshake, and the two directions
-- between a local UDP socket and TCP. Sockets' answers are arguments: for each write what becomes of
-- it, for the incoming side the segments.
pub mod Prefix
use v3xctrl.Base.{
  ℕ, zero, suc, ◌+◌, ◌-◌, Bool, true, false, not, Option, none, some, List, [], ◌∷◌, ◌++◌, min,
  length, if◌then◌else◌,
}
use v3xctrl.Base.Bytes.{Bytes}
use v3xctrl.Tcp.Framing.{Write, Segments, send_message, recv_message}

-- In tenths of a second.
abbrev pub retry_delays : List ℕ
retry_delays = 10 ∷ 20 ∷ 50 ∷ []

unfoldable pub nth : List ℕ → ℕ → ℕ
nth [] i = 0
nth (x ∷ xs) zero = x
nth (x ∷ xs) (suc i) = nth xs i

-- _RETRY_DELAYS[min(attempt, len(_RETRY_DELAYS) - 1)]
unfoldable pub delay_of : ℕ → ℕ
unfolding nth
delay_of attempt = nth retry_delays (min attempt (length retry_delays - 1))

-- One attempt: whether the stop was requested before it, whether connect succeeds, and whether the
-- stop is requested while it waits for the next.
pub record Attempt : Type 0 where
  pub stopped : Bool
  pub connects : Bool
  pub stopped_waiting : Bool

pub data Connection : Type 0 where
  -- the attempts given are over
  trying : Connection
  connected : Connection
  -- None
  stopped : Connection

-- _connect_with_retry from the attempt `n`: the outcome, and the delays waited for.
unfoldable pub connect_with_retry : ℕ → List Attempt → Connection × List ℕ
unfolding delay_of
connect_with_retry n [] = (trying, [])
connect_with_retry n (a ∷ attempts) =
    let (outcome, delays) = connect_with_retry (suc n) attempts in
    if a.stopped
    then (stopped, [])
    else if a.connects
    then (connected, [])
    else if a.stopped_waiting
    then (stopped, delay_of n ∷ [])
    else (outcome, delay_of n ∷ delays)

-- _do_handshake: whether it succeeded, what was written and what is left to read.
unfoldable pub do_handshake : Write → Bytes → Segments → Bool × Bytes × Segments
do_handshake w handshake segs =
    let (out, sent) = send_message w [] handshake in
    let (response, left) = recv_message segs in
    if sent
    then (elim response [ none ↦ (false, out, left) | some bytes ↦ (true, out, left) ])
    else (false, out, segs)

-- _outbound_loop, and the outbound part of _bridge: the datagrams of the local component, each with
-- what becomes of its write, until the first that is not sent.
unfoldable pub outbound_loop : Bytes → List (Bytes × Write) → Bytes
outbound_loop out [] = out
outbound_loop out ((datagram, w) ∷ rest) =
    let (out', sent) = send_message w out datagram in
    let later = outbound_loop out' rest in if sent then later else out'

-- _inbound_loop, and the loop of _handle_connection: the datagrams given to the local component.
-- `raises` tells where sendto raises an OSError. `none` means that the fuel ran out.
unfoldable pub inbound_loop : ℕ → (Bytes → Bool) → Segments → Option (List Bytes)
inbound_loop zero raises segs = none
inbound_loop (suc fuel) raises segs =
    let (got, left) = recv_message segs in
    elim got [
      | none ↦ some []
      | some datagram ↦ if raises datagram then some [] else elim (inbound_loop fuel raises left) [
        | none ↦ none
        | some later ↦ some (datagram ∷ later)
      ]
    ]
