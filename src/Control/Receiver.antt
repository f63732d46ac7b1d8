-- ===== src/Control/Receiver.antt =====
-- UDPReceiver.py: which messages are passed on. The worker thread that empties the queue is not
-- modelled: `queue` is what was put and not yet taken.
pub mod Order
use v3xctrl.Base.{
  ℕ, ◌+◌, String, Bool, true, false, not, ◌&&◌, Option, none, some, List, [], ◌∷◌, ◌++◌, ltb, ◌==◌,
  string_eq, length, if◌then◌else◌,
}
use v3xctrl.Relay.Types.{Address}
use v3xctrl.Control.Message.{Message, is_peer_info, is_exempt, is_handshake}

pub record Receiver : Type 0 where
  pub window : ℕ
  pub validate_timestamp : Bool
  -- _expected_host, where _should_validate_host is set
  pub expected_host : Option String
  pub last_valid_timestamp : ℕ
  pub last_valid_now : Option ℕ
  pub queue : List (Message × Address)

-- UDPReceiver(sock, handler, window_ms=…, should_validate_timestamp=…)
unfoldable pub new_receiver : ℕ → Bool → Receiver
new_receiver window validate = record {
  window = window;
  validate_timestamp = validate;
  expected_host = none;
  last_valid_timestamp = 0;
  last_valid_now = none;
  queue = [];
}

-- validate_host
unfoldable pub validate_host : String → Receiver → Receiver
validate_host host r = record r { expected_host = some host }

unfoldable pub reset : Receiver → Receiver
reset r = record r { last_valid_timestamp = 0; last_valid_now = none }

unfoldable pub is_wrong_host : Option String → Address → Bool
is_wrong_host none addr = false
is_wrong_host (some host) addr = not (addr.host == host)

-- `message.timestamp < last_valid_timestamp + (now - last_valid_now) - window`, with the terms on
-- the sides where they are added
unfoldable pub is_too_old : Receiver → Message → ℕ → Bool
is_too_old r m now = elim r.last_valid_now [
  | none ↦ false
  | some last ↦
      r.validate_timestamp && ltb (m.timestamp + r.window + last) (r.last_valid_timestamp + now)
]

-- is_valid_message, which may reset the receiver
unfoldable pub is_valid_message : Receiver → Message → Address → ℕ → Receiver × Bool
unfolding is_peer_info is_exempt is_handshake is_wrong_host is_too_old reset
is_valid_message r m addr now =
    if is_peer_info m.body
    then (r, false)
    else if is_wrong_host r.expected_host addr
    then (r, false)
    else if is_exempt m.body
    then (r, true)
    else if is_handshake m.body
    then (reset r, true)
    else if ltb m.timestamp r.last_valid_timestamp
    then (r, false)
    else if is_too_old r m now
    then (r, false)
    else (r, true)

abbrev pub queue_size : ℕ
queue_size = 100

-- put_nowait; a full queue drops the packet.
unfoldable pub put_nowait : Message × Address → List (Message × Address) → List (Message × Address)
put_nowait item queue = if ltb (length queue) queue_size then queue ++ (item ∷ []) else queue

-- One round of `run`, for a datagram that decodes to a message.
unfoldable pub receive : Receiver → Message → Address → ℕ → Receiver
unfolding is_valid_message put_nowait
receive r m addr now =
    let (r', valid) = is_valid_message r m addr now in
    if valid
    then record r' {
      last_valid_timestamp = m.timestamp;
      last_valid_now = some now;
      queue = put_nowait (m, addr) r'.queue;
    }
    else r'

pub record Arrival : Type 0 where
  pub message : Message
  pub addr : Address
  pub now : ℕ

-- the rounds of `run`
unfoldable pub receive_all : Receiver → List Arrival → Receiver
receive_all r [] = r
receive_all r (a ∷ arrivals) = receive_all (receive r a.message a.addr a.now) arrivals
