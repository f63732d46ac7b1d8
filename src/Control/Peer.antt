-- ===== src/Control/Peer.antt =====
-- Base.py, Client.py and Server.py: the connection state of the two ends, from their messages and the
-- rounds of their loops. Handlers of other components (`subscribe`, `on`) are not modelled. `outbox`
-- is what was given to the transmitter; UDPTransmitter is Control.Transmitter.
pub mod Client
pub mod Server
pub mod Liveness
use v3xctrl.Base.{
  ℕ, ◌+◌, ◌-◌, String, Bool, true, false, Option, none, some, List, [], ◌∷◌, ◌++◌, ltb, length,
  drop, if◌then◌else◌,
}
use v3xctrl.Relay.Types.{Address}
use v3xctrl.Control.Message.{Body, ack, heartbeat}

pub data State : Type 0 where
  waiting spectating connected disconnected : State

-- The two clocks of Python, `time.time()` and `time.monotonic()`, read once for a call.
pub record Now : Type 0 where
  pub wall : ℕ
  pub mono : ℕ

-- the fields of Base
pub record Base : Type 0 where
  pub state : State
  pub message_history : List (Body × Address)
  pub last_message_timestamp : ℕ
  pub no_message_timeout : ℕ
  pub last_sent_timestamp : ℕ
  pub last_sent_timeout : ℕ
  pub outbox : List (Body × Address)

abbrev pub message_history_length : ℕ
message_history_length = 50

-- _send
unfoldable pub send_to_address : Now → Body → Address → Base → Base
send_to_address now m addr b = record b {
  outbox = b.outbox ++ ((m, addr) ∷ []);
  last_sent_timestamp = now.wall;
}

unfoldable pub last_of : List (Body × Address) → Option Address
last_of [] = none
last_of ((m, addr) ∷ rest) = elim (last_of rest) [ none ↦ some addr | some a ↦ some a ]

-- get_last_address
unfoldable pub get_last_address : Base → Option Address
unfolding last_of
get_last_address b = last_of b.message_history

-- Whether the loop's `heartbeat` sends a Heartbeat.
unfoldable pub heartbeat_due : Now → Base → Bool
heartbeat_due now b = ltb (b.last_sent_timestamp + b.last_sent_timeout) now.wall

-- check_timeout, with `handle_state_change(State.DISCONNECTED)`
unfoldable pub check_timeout : Now → Base → Base
check_timeout now b = elim b.state [
  | connected ↦
      if ltb (b.last_message_timestamp + b.no_message_timeout) now.mono
      then record b { state = disconnected }
      else b
  | _ ↦ b
]

-- all_handler: the history keeps its last 50 messages.
unfoldable pub all_handler : Now → Body → Address → Base → Base
all_handler now m addr b =
    let history = b.message_history ++ ((m, addr) ∷ []) in
    record b {
      last_message_timestamp = now.mono;
      message_history = drop (length history - message_history_length) history;
    }
