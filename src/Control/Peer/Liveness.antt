-- ===== src/Control/Peer/Liveness.antt =====
-- How the connection state moves: only along the diagram, and out of `connected` only by silence.
use v3xctrl.Base.{◌+◌, ◌-◌, ◌≤◌, ◌<◌, ◌≡◌, ◌↔◌, [], ◌∷◌, ◌++◌, arith, length, length-drop}
use v3xctrl.Relay.Types.{Address}
use v3xctrl.Control.Message.{Body, syn}
use v3xctrl.Control.Peer.{
  State, waiting, connected, disconnected, Now, Base, all_handler, message_history_length,
}
use v3xctrl.Control.Peer.Client
use v3xctrl.Control.Peer.Client.{Client}

-- The diagram of the client: WAITING, CONNECTED, DISCONNECTED and back.
pub data Moves : State → State → Type 0 where
  stays : {s : State} → Moves s s
  connects : Moves waiting connected
  loses : Moves connected disconnected
  restarts : Moves disconnected waiting

-- What a client meets: messages, and rounds of its loop.
pub data Event : Type 0 where
  message : Now → Body → Address → Event
  tick : Now → Event

unfoldable pub step : Client → Event → Client
step c (message now m addr) = Client.handle now m addr c
step c (tick now) = Client.round now c

-- Every event, a message or a round, takes the client along one edge of the diagram or leaves its
-- state as it is.
pub step-Moves : (c : Client) (e : Event) → Moves c.base.state (step c e).base.state
unfolding step Client.handle Client.round
step-Moves c e = grind (arith, stays, connects, loses, restarts)

-- A connected client loses the connection in a round exactly if the last message is longer ago than
-- its timeout, and a message never makes it lose the connection.
pub round-loses :
    (c : Client) (now : Now)
    → c.base.state ≡ connected
    → (((Client.round now c).base.state ≡ disconnected)
        ↔ (c.base.last_message_timestamp + c.base.no_message_timeout < now.mono))
      × ((m : Body) (addr : Address) → (Client.handle now m addr c).base.state ≡ connected)
unfolding Client.round Client.handle
round-loses c now h = (((λ d. ground arith), (λ d. ground arith)), (λ m addr. ground arith))

-- A connected client whose server went silent is waiting again after two rounds, and the next round
-- sends a Syn, once the last one is over its interval: the connection is sought anew without help.
silence-resyn :
    (c : Client) (t1 t2 t3 : Now)
    → c.base.state ≡ connected
    → c.base.last_message_timestamp + c.base.no_message_timeout < t1.mono
    → c.last_syn + c.syn_interval < t3.wall
    → let c2 = Client.round t2 (Client.round t1 c) in
      (c2.base.state ≡ waiting)
      × ((Client.round t3 c2).base.outbox ≡ c2.base.outbox ++ ((syn, c.server_address) ∷ []))
unfolding Client.round
silence-resyn c t1 t2 t3 h silent due = (ground arith, ground arith)

-- The history never holds more than its 50 messages.
pub all_handler-bounded :
    (now : Now) (m : Body) (addr : Address) (b : Base)
    → length (all_handler now m addr b).message_history ≤ message_history_length
unfolding all_handler
all_handler-bounded now m addr b =
    let history = b.message_history ++ ((m, addr) ∷ []) in
    omega (arith, length-drop (length history - message_history_length) history)
