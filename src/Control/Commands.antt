-- ===== src/Control/Commands.antt =====
-- The commands of Server.py: pending_commands, send_command with its retries and its error paths,
-- command_ack_handler and stop. A pending entry holds whether there is a callback; `called` is the
-- record of its calls. A section under pending_lock is one action, and what comes between two sections
-- is a sequence of actions of other threads.
pub mod Once
pub mod Retry
use v3xctrl.Base.{
  ℕ, zero, suc, ◌+◌, String, Bool, true, false, Option, none, some, List, [], ◌∷◌, ◌++◌, ◌==◌,
  string_eq, if◌then◌else◌,
}
use v3xctrl.Base.Dict.{Dict, get, has, put, pop}

pub record Commands : Type 0 where
  pub pending : Dict String Bool
  -- the commands that send_command or its retry_task is still busy with, and whether the closure has
  -- a callback
  pub tasks : Dict String Bool
  -- the arguments of the callbacks, with their commands
  pub called : List (String × Bool)
  -- the commands given to `send`
  pub transmitted : List String

-- `if callback: callback(result)`
unfoldable pub call_back : String → Bool → Bool → Commands → Commands
call_back id has_callback result c =
    if has_callback then record c { called = c.called ++ ((id, result) ∷ []) } else c

-- `self.pending_commands[command_id] = callback`, with retry_task made and not yet submitted
unfoldable pub send_command : String → Bool → Commands → Commands
send_command id has_callback c = record c {
  pending = put id has_callback c.pending;
  tasks = put id has_callback c.tasks;
}

-- The two error paths: the RuntimeError of a thread pool that is shut down, and the `except Exception`
-- of retry_task. Both pop the entry, there or not, and call the closure's callback.
unfoldable pub fail : String → Commands → Commands
unfolding call_back
fail id c = elim (get id c.tasks) [
  | none ↦ c
  | some has_callback ↦
      call_back id has_callback false
        (record c { pending = pop id c.pending; tasks = pop id c.tasks })
]

-- One round of `for attempt in range(max_retries)`; the flag says whether the task goes on.
unfoldable pub attempt : String → Commands → Commands × Bool
attempt id c =
    if has id c.pending
    then (record c { transmitted = c.transmitted ++ (id ∷ []) }, true)
    else (record c { tasks = pop id c.tasks }, false)

-- The end of the task, with no acknowledgment.
unfoldable pub give_up : String → Commands → Commands
unfolding call_back
give_up id c = elim (get id c.pending) [
  | none ↦ record c { tasks = pop id c.tasks }
  | some has_callback ↦
      call_back id has_callback false
        (record c { pending = pop id c.pending; tasks = pop id c.tasks })
]

-- command_ack_handler
unfoldable pub command_ack_handler : String → Commands → Commands
unfolding call_back
command_ack_handler id c = elim (get id c.pending) [
  | none ↦ c
  | some has_callback ↦ call_back id has_callback true (record c { pending = pop id c.pending })
]

unfoldable pub fail_all : Dict String Bool → List (String × Bool)
fail_all [] = []
fail_all ((id, has_callback) ∷ d) =
    let rest = fail_all d in if has_callback then (id, false) ∷ rest else rest

-- stop, as far as the commands go
unfoldable pub stop : Commands → Commands
unfolding fail_all
stop c = record c { called = c.called ++ fail_all c.pending; pending = [] }

-- retry_task when no other action comes between its attempts: `max_retries` of them and the end
unfoldable pub retry_task : ℕ → String → Commands → Commands
unfolding attempt give_up
retry_task zero id c = give_up id c
retry_task (suc n) id c =
    let (c', goes_on) = attempt id c in
    let rest = retry_task n id c' in if goes_on then rest else c'
