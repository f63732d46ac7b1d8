-- ===== src/Control/Transmitter.antt =====
-- UDPTransmitter.py and UDPPacket.py: the bounded buffer of control messages, the regular queue and
-- one round of `process`. `sent` is what was handed to the socket without an OSError.
pub mod Bounds
use v3xctrl.Base.{
  ℕ, ◌+◌, ◌-◌, Bool, true, false, not, ◌&&◌, Option, none, some, List, [], ◌∷◌, ◌++◌, ltb, ◌==◌,
  nat_eq, length, drop, if◌then◌else◌,
}
use v3xctrl.Relay.Types.{Address}
use v3xctrl.Control.Message.{Message}

-- The bytes of a packet are those of its message.
pub record UdpPacket : Type 0 where
  pub message : Message
  pub addr : Address
  pub timestamp : ℕ

pub record Transmitter : Type 0 where
  pub queue : List UdpPacket
  pub control_buffer : List UdpPacket
  pub control_capacity : ℕ
  pub last_control_drop_timestamp : ℕ
  pub last_send_failure_timestamp : ℕ
  pub ttl : ℕ
  pub sent : List UdpPacket

-- UDPTransmitter(sock, ttl_ms, control_buffer_capacity)
unfoldable pub new_transmitter : ℕ → ℕ → Transmitter
new_transmitter ttl capacity = record {
  queue = [];
  control_buffer = [];
  control_capacity = capacity;
  last_control_drop_timestamp = 0;
  last_send_failure_timestamp = 0;
  ttl = ttl;
  sent = [];
}

-- add_message
unfoldable pub add_message : Message → Address → ℕ → Transmitter → Transmitter
add_message m addr now t = record t {
  queue = t.queue ++ (record { message = m; addr = addr; timestamp = now } ∷ []);
}

-- `append` of a `deque` with a maximal length: the oldest items go.
unfoldable pub append_bounded : ℕ → List UdpPacket → UdpPacket → List UdpPacket
append_bounded capacity buffer p =
    let longer = buffer ++ (p ∷ []) in drop (length longer - capacity) longer

unfoldable pub set_control_message : Message → Address → ℕ → Transmitter → Transmitter
unfolding append_bounded
set_control_message m addr now t = record t {
  last_control_drop_timestamp =
      if length t.control_buffer == t.control_capacity then now else t.last_control_drop_timestamp;
  control_buffer =
      append_bounded t.control_capacity t.control_buffer
        (record { message = m; addr = addr; timestamp = now });
}

-- has_recent_control_drops and has_recent_send_failures, on their timestamp
unfoldable pub is_recent : ℕ → ℕ → ℕ → Bool
is_recent window timestamp now = not (timestamp == 0) && ltb now (timestamp + window)

abbrev pub has_recent_control_drops : ℕ → ℕ → Transmitter → Bool
has_recent_control_drops window now t = is_recent window t.last_control_drop_timestamp now

abbrev pub has_recent_send_failures : ℕ → ℕ → Transmitter → Bool
has_recent_send_failures window now t = is_recent window t.last_send_failure_timestamp now

-- update_ttl
unfoldable pub update_ttl : ℕ → Transmitter → Transmitter
update_ttl ttl t = record t { ttl = ttl }

-- _send_packet; the flag says that `sendto` raises no OSError.
unfoldable pub send_packet : (UdpPacket → Bool) → ℕ → UdpPacket → Transmitter → Transmitter
send_packet sendable now p t =
    if sendable p
    then record t { sent = t.sent ++ (p ∷ []) }
    else record t { last_send_failure_timestamp = now }

unfoldable pub send_control_packet : (UdpPacket → Bool) → ℕ → Transmitter → Transmitter
unfolding send_packet
send_control_packet sendable now t = elim t.control_buffer [
  | [] ↦ t
  | p ∷ rest ↦ send_packet sendable now p (record t { control_buffer = rest })
]

unfoldable pub send_queued_packet : (UdpPacket → Bool) → ℕ → Transmitter → Transmitter
unfolding send_packet
send_queued_packet sendable now t = elim t.queue [
  | [] ↦ t
  | p ∷ rest ↦
      let t' = record t { queue = rest } in
      if ltb (p.timestamp + t.ttl) now then t' else send_packet sendable now p t'
]

-- One round of the loop of `process`: a control packet, then a regular one.
unfoldable pub process_round : (UdpPacket → Bool) → ℕ → Transmitter → Transmitter
unfolding send_control_packet send_queued_packet
process_round sendable now t = send_queued_packet sendable now (send_control_packet sendable now t)
