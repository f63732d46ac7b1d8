-- ===== src/Punch/Registration/Noise.antt =====
-- The media packets that the relay still forwards do not disturb a registration.
use v3xctrl.Base.{ℕ, ◌≡◌, refl, Option, none, some, List, [], ◌∷◌, map, if◌then◌else◌, arith}
use v3xctrl.Base.Bytes.{Bytes}
use v3xctrl.Punch.Registration.{
  Parsed, is_message, flush_socket, Round, announce, read_reply, register_with_relay,
}

-- The waiting datagrams without those that are no messages; an OSError stays.
pub messages_of : List (Option Bytes) → List (Option Bytes)
messages_of [] = []
messages_of (none ∷ waiting) = none ∷ messages_of waiting
messages_of (some datagram ∷ waiting) =
    let rest = messages_of waiting in if is_message datagram then some datagram ∷ rest else rest

pub message_of : Option Bytes → Option Bytes
message_of none = none
message_of (some datagram) = if is_message datagram then some datagram else none

pub quiet : Round → Round
unfolding messages_of message_of
quiet r = record r { waiting = messages_of r.waiting; reply = message_of r.reply }

flush_socket-messages_of :
    (parse : Bytes → Parsed) (waiting : List (Option Bytes))
    → flush_socket parse (messages_of waiting) ≡ flush_socket parse waiting
unfolding flush_socket messages_of is_message
flush_socket-messages_of parse [] = refl
flush_socket-messages_of parse (none ∷ waiting) = refl
flush_socket-messages_of parse (some datagram ∷ waiting) =
    ground (arith, flush_socket-messages_of parse waiting)

read_reply-message_of :
    (parse : Bytes → Parsed) (reply : Option Bytes)
    → read_reply parse (message_of reply) ≡ read_reply parse reply
unfolding read_reply message_of is_message
read_reply-message_of parse none = refl
read_reply-message_of parse (some datagram) = ground arith

-- The registration of a socket ends the same way, or goes on the same way, if all datagrams that do
-- not begin with the prefix of a message are removed from what it receives, between the
-- announcements and among those that wait for one.
pub register_with_relay-quiet :
    (parse : Bytes → Parsed) (last : ℕ) (rounds : List Round)
    → register_with_relay parse last (map quiet rounds) ≡ register_with_relay parse last rounds
unfolding register_with_relay announce quiet
register_with_relay-quiet parse last [] = refl
register_with_relay-quiet parse last (r ∷ rounds) = ground (
  arith,
  flush_socket-messages_of parse r.waiting,
  read_reply-message_of parse r.reply,
  register_with_relay-quiet parse r.now rounds,
  register_with_relay-quiet parse last rounds,
)
