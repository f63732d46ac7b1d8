-- ===== src/Viewer/Coordinator.antt =====
-- NetworkCoordinator.py, with what it reads of NetworkController.py: the gates of a spectator and of
-- a failed server, the queue that brings the callbacks of commands to the main thread, and the
-- handlers of the server's states. A command stands for its callback.
pub mod Dues
pub mod Answers
use v3xctrl.Base.{
  ℕ, ◌+◌, String, Bool, true, false, not, ◌&&◌, Option, none, some, List, [], ◌∷◌, ◌++◌, length,
  drop, if◌then◌else◌, is_some,
}
use v3xctrl.Control.Commands.{Commands}
use v3xctrl.Control.Commands
use v3xctrl.Control.Commands.Once.{Action, failed, act, act_all}

pub record Controller : Type 0 where
  pub relay_spectator_mode : Bool
  pub server : Option Commands
  pub server_error : Bool
  -- the (throttle, steering) pairs given to the server's send_control, and its latency checks
  pub controls : List (ℕ × ℕ)
  pub latency_checks : ℕ

pub record Coordinator : Type 0 where
  pub network_controller : Option Controller
  pub callback_queue : List (String × Bool)
  -- the callbacks of commands that ran, with their results
  pub ran : List (String × Bool)
  pub control_connected : Bool
  -- the calls of on_connection_change
  pub changes : List Bool

-- self.network_controller and self.network_controller.relay_spectator_mode
unfoldable pub is_spectator : Coordinator → Bool
is_spectator k = elim k.network_controller [ none ↦ false | some n ↦ n.relay_spectator_mode ]

-- The server, where there is one without an error.
unfoldable pub usable : Controller → Bool
usable n = is_some n.server && not n.server_error

unfoldable pub send_control_message : ℕ → ℕ → Coordinator → Coordinator
unfolding is_spectator usable
send_control_message throttle steering k =
    if is_spectator k then k else (elim k.network_controller [
      | none ↦ k
      | some n ↦
          if usable n
          then record k {
            network_controller =
                some (record n { controls = n.controls ++ ((throttle, steering) ∷ []) });
          }
          else k
    ])

-- NetworkController.send_latency_check
unfoldable pub check_latency : Controller → Controller
unfolding usable
check_latency n = if usable n then record n { latency_checks = n.latency_checks + 1 } else n

unfoldable pub send_latency_check : Coordinator → Coordinator
unfolding is_spectator check_latency
send_latency_check k = if is_spectator k then k else (elim k.network_controller [
  | none ↦ k
  | some n ↦ record k { network_controller = some (check_latency n) }
])

-- The server after its commands changed from `c` to `c'`: each new call of a callback is a call of
-- `deferred_callback`, which puts the command's own callback on the queue.
unfoldable pub defer_calls : Controller → Commands → Commands → Coordinator → Coordinator
defer_calls n c c' k = record k {
  network_controller = some (record n { server = some c' });
  callback_queue = k.callback_queue ++ drop (length c.called) c'.called;
}

-- Server.send_command with a callback: the command is registered, other threads act, and the task is
-- given to the thread pool; `accepts` is false if that is shut down.
unfoldable pub submit : Bool → List Action → String → Commands → Commands
unfolding act act_all
submit accepts meanwhile id c =
    let registered = act_all (Commands.send_command id true c) meanwhile in
    if accepts then registered else act registered (failed id)

unfoldable pub send_command : Bool → List Action → String → Coordinator → Coordinator
unfolding is_spectator submit defer_calls
send_command accepts meanwhile id k =
    if is_spectator k
    then record k { callback_queue = k.callback_queue ++ ((id, false) ∷ []) }
    else (elim k.network_controller [
      | none ↦ record k { ran = k.ran ++ ((id, false) ∷ []) }
      | some n ↦ elim n.server [
        | none ↦ record k { ran = k.ran ++ ((id, false) ∷ []) }
        | some c ↦ defer_calls n c (submit accepts meanwhile id c) k
      ]
    ])

-- process_callbacks, for callbacks that put nothing on the queue
unfoldable pub process_callbacks : Coordinator → Coordinator
process_callbacks k = record k { ran = k.ran ++ k.callback_queue; callback_queue = [] }

-- What a thread of the server does with its commands.
unfoldable pub server_acts : Action → Coordinator → Coordinator
unfolding defer_calls act
server_acts a k = elim k.network_controller [
  | none ↦ k
  | some n ↦ elim n.server [ none ↦ k | some c ↦ defer_calls n c (act c a) k ]
]

-- update_connected, the handler of the server's states
unfoldable pub update_connected : Bool → Bool → Coordinator → Coordinator
update_connected has_handler state k = record k {
  control_connected = state;
  changes = if has_handler then k.changes ++ (state ∷ []) else k.changes;
}

unfoldable pub has_server_error : Coordinator → Bool
has_server_error k = elim k.network_controller [ none ↦ false | some n ↦ n.server_error ]
