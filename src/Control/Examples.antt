-- ===== src/Control/Examples.antt =====
-- The control channel at concrete inputs.
use v3xctrl.Base.{
  ℕ, ◌+◌, ◌≤◌, ◌≡◌, refl, true, false, List, [], ◌∷◌, ◌++◌, arith, nat_eq, string_eq,
}
use v3xctrl.Base.Dict.{get, pop}
use v3xctrl.Relay.Types.{Address}
use v3xctrl.Control.Message.{Message, latency, telemetry, control}
use v3xctrl.Control.Receiver.{
  Receiver, new_receiver, validate_host, Arrival, receive, receive_all, is_valid_message,
  is_wrong_host,
}
use v3xctrl.Control.Receiver.Order.{
  Rises, AreFrom, receive_all-Rises, receive_all-AreFrom, latency-blocks_telemetry,
}
use v3xctrl.Control.Transmitter.{Transmitter, new_transmitter}
use v3xctrl.Control.Transmitter.Bounds.{
  latest, packets, set_control_messages, set_control_messages-keeps_latest,
}
use v3xctrl.Control.Commands.{Commands, send_command, retry_task}
use v3xctrl.Control.Commands.Once
use v3xctrl.Control.Commands.Once.{calls, count_pending, send_command-once, stop-answers_twice}
use v3xctrl.Control.Commands.Retry.{retry_task_lem, replicate}

abbrev home : Address
home = record { host = "10.0.0.1"; port = 16386 }

abbrev receiver : Receiver
receiver = validate_host "10.0.0.1" (new_receiver 500 false)

abbrev control_at : ℕ → Message
control_at t = record { body = control; timestamp = t }

abbrev arrival : ℕ → Arrival
arrival t = record { message = control_at t; addr = home; now = 9 }

abbrev arrivals : List Arrival
arrivals = arrival 3 ∷ arrival 1 ∷ arrival 4 ∷ []

receive_all-Rises_example : Rises (receive_all receiver arrivals).queue
unfolding validate_host new_receiver
receive_all-Rises_example = receive_all-Rises receiver arrivals refl

receive_all-AreFrom_example : AreFrom "10.0.0.1" (receive_all receiver arrivals).queue
unfolding validate_host new_receiver
receive_all-AreFrom_example = receive_all-AreFrom "10.0.0.1" receiver arrivals refl tt

abbrev reply : Message
reply = record { body = latency; timestamp = 90 }

abbrev report : Message
report = record { body = telemetry; timestamp = 50 }

latency-blocks_telemetry_example :
    (is_valid_message (receive receiver reply home 90) report home 91).1 ≡ false
unfolding validate_host new_receiver is_wrong_host
latency-blocks_telemetry_example =
    latency-blocks_telemetry receiver reply report home home 90 91 refl refl refl (omega arith)

abbrev transmitter : Transmitter
transmitter = new_transmitter 100 2

abbrev three : List Message
three = control_at 1 ∷ control_at 2 ∷ control_at 3 ∷ []

set_control_messages-keeps_latest_example :
    (set_control_messages home 5 three transmitter).control_buffer
    ≡ latest transmitter.control_capacity (transmitter.control_buffer ++ packets home 5 three)
unfolding new_transmitter
set_control_messages-keeps_latest_example =
    set_control_messages-keeps_latest home 5 three transmitter (omega arith)

abbrev no_commands : Commands
no_commands = record { pending = []; tasks = []; called = []; transmitted = [] }

-- The task's send raises after the acknowledgment.
abbrev history : List Once.Action
history = Once.attempted "c" ∷ Once.acknowledged "c" ∷ Once.failed "c" ∷ Once.stopped ∷ []

send_command-once_example :
    (let c' = Once.act_all (send_command "c" true no_commands) history in
      let answers = calls "c" c'.called + count_pending (get "c" c'.pending) in
      (1 ≤ answers) × (answers ≤ 2) × (answers ≤ 1 + Once.errors "c" history))
unfolding get calls
send_command-once_example = send_command-once "c" no_commands history tt refl refl

stop-answers_twice_example :
    calls "c"
      (Once.act_all
        (send_command "c" true no_commands)
        (Once.stopped ∷ Once.failed "c" ∷ [])).called
    ≡ 2
unfolding get calls
stop-answers_twice_example = stop-answers_twice "c" no_commands tt refl refl

abbrev one_command : Commands
one_command = record no_commands { pending = ("c", true) ∷ []; tasks = ("c", true) ∷ [] }

retry_task_lem_example : retry_task 2 "c" one_command ≡ record {
  pending = pop "c" one_command.pending;
  tasks = pop "c" one_command.tasks;
  called = one_command.called ++ (("c", false) ∷ []);
  transmitted = one_command.transmitted ++ replicate 2 "c";
}
unfolding get
retry_task_lem_example = retry_task_lem 2 "c" one_command refl
