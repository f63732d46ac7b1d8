-- ===== src/Viewer/Coordinator/Dues.antt =====
-- What the main thread and the server's threads do to the answers that are due to a command.
use v3xctrl.Base.{
  ℕ, ◌+◌, ◌≤◌, ◌≢◌, ◌≡◌, refl, ◌∙◌, String, Bool, true, false, Option, none, some, List, [], ◌∷◌,
  ◌++◌, drop-append, string_eq, arith, Option-cases, ◌⊎◌, inl, inr,
}
use mathlib.Core.List.{append-nil, append_assoc}
use v3xctrl.Base.Dict.{get}
use v3xctrl.Control.Commands.{Commands, fail, attempt, give_up, command_ack_handler, fail_all, stop}
use v3xctrl.Control.Commands.Once.{
  calls, calls-append, UniqueKeys, count_pending, owed, Action, acknowledged, attempted, expired,
  failed, stopped, act, act_all, Owes-act, errors_in,
}
use v3xctrl.Viewer.Coordinator.{
  Controller, Coordinator, defer_calls, process_callbacks, server_acts,
}

-- The calls that an action of the server makes come after those that were made.
pub act-extends :
    (c : Commands) (a : Action)
    → (new : List (String × Bool)) × ((act c a).called ≡ c.called ++ new)
unfolding act
act-extends c (acknowledged id) =
    unfold command_ack_handler in
    elim (Option-cases (get id c.pending)) [
      | inl e ↦ ([], rw (e, command_ack_handler) (ground (arith, append-nil c.called)))
      | inr (true, e) ↦ ((id, true) ∷ [], rw (e, command_ack_handler) refl)
      | inr (false, e) ↦ ([], rw (e, command_ack_handler) (ground (arith, append-nil c.called)))
    ]
act-extends c (attempted id) = ([], unfold attempt in ground (arith, append-nil c.called))
act-extends c (expired id) =
    unfold give_up in
    elim (Option-cases (get id c.pending)) [
      | inl e ↦ ([], rw (e, give_up) (ground (arith, append-nil c.called)))
      | inr (true, e) ↦ ((id, false) ∷ [], rw (e, give_up) refl)
      | inr (false, e) ↦ ([], rw (e, give_up) (ground (arith, append-nil c.called)))
    ]
act-extends c (failed id) =
    unfold fail in
    elim (Option-cases (get id c.tasks)) [
      | inl e ↦ ([], rw (e, fail) (ground (arith, append-nil c.called)))
      | inr (true, e) ↦ ((id, false) ∷ [], rw (e, fail) refl)
      | inr (false, e) ↦ ([], rw (e, fail) (ground (arith, append-nil c.called)))
    ]
act-extends c stopped = (fail_all c.pending, unfold stop in refl)

pub act_all-extends :
    (c : Commands) (as' : List Action)
    → (new : List (String × Bool)) × ((act_all c as').called ≡ c.called ++ new)
unfolding act_all
act_all-extends c [] = ([], ground (arith, append-nil c.called))
act_all-extends c (a ∷ as') =
    let (one, first) = act-extends c a in
    let (more, rest) = act_all-extends (act c a) as' in
    (one ++ more, rest ∙ ground (arith, append_assoc c.called one more))

abbrev pub pending_of : Coordinator → Option Commands
pending_of k = elim k.network_controller [ none ↦ none | some n ↦ n.server ]

-- The answers to a command that have run, wait on the queue, or are still owed by the server.
abbrev pub count_owed : String → Option Commands → ℕ
count_owed id none = 0
count_owed id (some c) = count_pending (get id c.pending)

unfoldable pub due : String → Coordinator → ℕ
due id k = calls id k.ran + calls id k.callback_queue + count_owed id (pending_of k)

-- Whether the command's task may still answer.
abbrev pub count_task : String → Option Commands → ℕ
count_task id none = 0
count_task id (some c) = count_pending (get id c.tasks)

abbrev pub IsTidy : String → Option Commands → Type 0
IsTidy id none = Unit {0}
IsTidy id (some c) = UniqueKeys c.pending × (get id c.tasks ≢ some false)

-- What the main thread and the server's threads do, after a command was sent.
pub data Step : Type 0 where
  processed : Step
  server_acted : Action → Step

pub step : Coordinator → Step → Coordinator
unfolding process_callbacks server_acts
step k processed = process_callbacks k
step k (server_acted a) = server_acts a k

pub step_all : Coordinator → List Step → Coordinator
step_all k [] = k
step_all k (x ∷ xs) = step_all (step k x) xs

-- The error paths of the command among the steps.
pub step_errors : String → List Step → ℕ
step_errors id [] = 0
step_errors id (processed ∷ xs) = step_errors id xs
step_errors id (server_acted a ∷ xs) = errors_in id a + step_errors id xs

server_acts-idle : (a : Action) (k : Coordinator) → pending_of k ≡ none → server_acts a k ≡ k
unfolding server_acts
server_acts-idle a k h = ground arith

server_acts-defers :
    (a : Action) (k : Coordinator) (n : Controller) (c : Commands)
    → k.network_controller ≡ some n
    → n.server ≡ some c
    → server_acts a k ≡ defer_calls n c (act c a) k
unfolding server_acts
server_acts-defers a k n c e h = rw (e, server_acts) (rw h refl)

pub pending_of-cases :
    (k : Coordinator)
    → (pending_of k ≡ none)
      ⊎ ((n : Controller) × (c : Commands) × (k.network_controller ≡ some n) × (n.server ≡ some c))
pending_of-cases k = elim (Option-cases k.network_controller) [
  | inl e ↦ inl (rw e refl)
  | inr (n, e) ↦ elim (Option-cases n.server) [
    | inl h ↦ inl (rw e h)
    | inr (c, h) ↦ inr (n, c, e, h)
  ]
]

-- What a step may do to what is due, as for the server's commands.
pub record Dues (id : String) (k k' : Coordinator) (n : ℕ) : Type 0 where
  pub kept : due id k ≤ due id k'
  pub added : due id k' ≤ due id k + n
  pub spent : due id k' + count_task id (pending_of k') ≤ due id k + count_task id (pending_of k)
  pub tidy : IsTidy id (pending_of k')

module _ (id : String) (k : Coordinator) where
  due-process_callbacks : due id (process_callbacks k) ≡ due id k
  unfolding due process_callbacks calls
  due-process_callbacks = ground (arith, calls-append id k.ran k.callback_queue)

  pub due-defer_calls :
      (n : Controller) (c c' : Commands) (new : List (String × Bool))
      → k.network_controller ≡ some n
      → n.server ≡ some c
      → c'.called ≡ c.called ++ new
      → due id (defer_calls n c c' k) + owed id c ≡ due id k + owed id c'
  unfolding due defer_calls
  due-defer_calls n c c' new hn hs e =
      rw (hn, hs, e, drop-append c.called new)
        (omega (arith, calls-append id c.called new, calls-append id k.callback_queue new))

  Dues-server_acts :
      (a : Action) → IsTidy id (pending_of k) → Dues id k (server_acts a k) (errors_in id a)
  Dues-server_acts a t = elim (pending_of-cases k) [
    | inl e ↦ rw (server_acts-idle a k e) (ground arith)
    | inr (n, c, e, h) ↦
        let (new, extends) = act-extends c a in
        let tidy : UniqueKeys c.pending × (get id c.tasks ≢ some false) = rw (e, h) at t in
        let owes = Owes-act id c a tidy.0 tidy.1 in
        let balance = due-defer_calls n c (act c a) new e h extends in
        let task : count_task id (pending_of k) ≡ count_pending (get id c.tasks) = rw (e, h) refl in
        rw (server_acts-defers a k n c e h) (record {
          kept = omega (arith, balance, owes.kept);
          added = omega (arith, balance, owes.added);
          spent = unfold defer_calls in omega (arith, balance, owes.spent, task);
          tidy = unfold defer_calls in (owes.unique, owes.answering);
        })
  ]

pub Dues-step_all :
    (id : String) (xs : List Step) (k : Coordinator)
    → IsTidy id (pending_of k)
    → Dues id k (step_all k xs) (step_errors id xs)
unfolding step_all step step_errors
Dues-step_all id [] k t = ground arith
Dues-step_all id (processed ∷ xs) k t =
    let rest = Dues-step_all id xs (process_callbacks k) (unfold process_callbacks in t) in
    let same = due-process_callbacks id k in
    record {
      kept = omega (arith, same, rest.kept);
      added = omega (arith, same, rest.added);
      spent = unfold process_callbacks in omega (arith, same, rest.spent);
      tidy = rest.tidy;
    }
Dues-step_all id (server_acted a ∷ xs) k t =
    let one = Dues-server_acts id k a t in
    let rest = Dues-step_all id xs (server_acts a k) one.tidy in
    record {
      kept = omega (arith, one.kept, rest.kept);
      added = omega (arith, one.added, rest.added);
      spent = omega (arith, one.spent, rest.spent);
      tidy = rest.tidy;
    }
