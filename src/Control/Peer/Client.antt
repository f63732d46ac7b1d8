-- ===== src/Control/Peer/Client.antt =====
-- Client.py
use v3xctrl.Base.{ℕ, ◌+◌, [], ltb, if◌then◌else◌}
use v3xctrl.Relay.Types.{Address}
use v3xctrl.Control.Message.{Body, ack, heartbeat, syn, command, command_ack}
use v3xctrl.Control.Peer.{
  State, waiting, spectating, connected, disconnected, Now, Base, send_to_address, heartbeat_due,
  check_timeout, all_handler,
}

pub record Client : Type 0 where
  pub base : Base
  pub server_address : Address
  pub last_syn : ℕ
  pub syn_interval : ℕ

-- Client(host, port, failsafe_ms=…), with the intervals of one second in the clock's unit
unfoldable pub new_client : Address → ℕ → ℕ → Client
new_client server failsafe second = record {
  base = record {
    state = waiting;
    message_history = [];
    last_message_timestamp = 0;
    no_message_timeout = failsafe;
    last_sent_timestamp = 0;
    last_sent_timeout = second;
    outbox = [];
  };
  server_address = server;
  last_syn = 0;
  syn_interval = second;
}

-- send: always to the server
unfoldable pub send : Now → Body → Client → Client
unfolding send_to_address
send now m c = record c { base = send_to_address now m c.server_address c.base }

unfoldable pub set_state : State → Client → Client
set_state s c = record c { base = record (c.base) { state = s } }

-- ack_handler
unfoldable pub ack_handler : Client → Client
unfolding set_state
ack_handler c = elim c.base.state [ waiting ↦ set_state connected c | _ ↦ c ]

-- the handlers that initialize registers, after the one for every Message
unfoldable pub handle_body : Now → Body → Client → Client
unfolding send ack_handler
handle_body now syn c = send now ack c
handle_body now ack c = ack_handler c
handle_body now (command i) c = send now (command_ack i) c
handle_body now _ c = c

-- MessageHandler.handler, for a message that the receiver let through
unfoldable pub handle : Now → Body → Address → Client → Client
unfolding handle_body all_handler
handle now m addr c = handle_body now m (record c { base = all_handler now m addr c.base })

-- _send_syn
unfoldable pub send_syn : Now → Client → Client
unfolding send
send_syn now c =
    if ltb (c.last_syn + c.syn_interval) now.wall
    then record (send now syn c) { last_syn = now.wall }
    else c

unfoldable pub beat : Now → Client → Client
unfolding send heartbeat_due
beat now c = if heartbeat_due now c.base then send now heartbeat c else c

-- One round of `run`. re_initialize makes a new socket, transmitter and message handler, and keeps
-- the fields that are modelled.
unfoldable pub round : Now → Client → Client
unfolding set_state send_syn beat check_timeout
round now c = elim c.base.state [
  | disconnected ↦ set_state waiting c
  | waiting ↦ send_syn now c
  | connected ↦ beat now (record c { base = check_timeout now c.base })
  | spectating ↦ c
]
