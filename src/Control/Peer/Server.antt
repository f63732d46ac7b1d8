-- ===== src/Control/Peer/Server.antt =====
-- Server.py, but for the commands, which are Control.Commands.
use v3xctrl.Base.{ℕ, ◌*◌, none, some, [], if◌then◌else◌}
use v3xctrl.Relay.Types.{Address}
use v3xctrl.Control.Message.{Body, ack, heartbeat, syn}
use v3xctrl.Control.Peer.{
  State, waiting, spectating, connected, disconnected, Now, Base, send_to_address, get_last_address,
  heartbeat_due, check_timeout, all_handler,
}
use v3xctrl.Control.Receiver.{Receiver, reset}

pub record Server : Type 0 where
  pub base : Base
  pub receiver : Receiver

-- Server(port): no_message_timeout is ten seconds.
unfoldable pub new_server : Receiver → ℕ → Server
new_server receiver second = record {
  base = record {
    state = waiting;
    message_history = [];
    last_message_timestamp = 0;
    no_message_timeout = 10 * second;
    last_sent_timestamp = 0;
    last_sent_timeout = second;
    outbox = [];
  };
  receiver = receiver;
}

-- send: to the address of the last message, if there is one
unfoldable pub send : Now → Body → Server → Server
unfolding send_to_address get_last_address
send now m s = elim (get_last_address s.base) [
  | none ↦ s
  | some addr ↦ record s { base = send_to_address now m addr s.base }
]

unfoldable pub set_state : State → Server → Server
set_state st s = record s { base = record (s.base) { state = st } }

-- syn_handler
unfoldable pub syn_handler : Now → Address → Server → Server
unfolding send_to_address set_state
syn_handler now addr s =
    let s' = record s { base = send_to_address now ack addr s.base } in
    elim s'.base.state [ waiting ↦ set_state connected s' | _ ↦ s' ]

unfoldable pub handle_body : Now → Body → Address → Server → Server
unfolding syn_handler
handle_body now syn addr s = syn_handler now addr s
handle_body now _ addr s = s

-- MessageHandler.handler; CommandAck is handled in Control.Commands.
unfoldable pub handle : Now → Body → Address → Server → Server
unfolding handle_body all_handler
handle now m addr s = handle_body now m addr (record s { base = all_handler now m addr s.base })

unfoldable pub beat : Now → Server → Server
unfolding send heartbeat_due
beat now s = if heartbeat_due now s.base then send now heartbeat s else s

-- One round of `run`.
unfoldable pub round : Now → Server → Server
unfolding set_state beat check_timeout reset
round now s = elim s.base.state [
  | disconnected ↦ set_state waiting (record s { receiver = reset s.receiver })
  | waiting ↦ s
  | spectating ↦ beat now s
  | connected ↦ beat now (record s { base = check_timeout now s.base })
]
