-- ===== src/Viewer/Coordinator/Answers.antt =====
-- How often a command that the viewer sends is answered, by its callback on the main thread.
use v3xctrl.Base.{
  ℕ, ◌+◌, ◌≤◌, ◌≢◌, ◌≡◌, refl, ◌∙◌, ap, String, Bool, true, false, Option, none, some, List, [],
  ◌∷◌, ◌++◌, string_eq, arith, beq_refl, Bool-cases, inl, inr,
}
use mathlib.Core.List.{append_assoc}
use v3xctrl.Base.Dict.{get, get-put}
use v3xctrl.Control.Commands.{Commands, send_command as put_pending}
use v3xctrl.Control.Commands.Once.{
  calls, calls-append, UniqueKeys, count_pending, owed, Action, failed, act_all, Owes-act,
  Owes-act_all, errors_in, errors, UniqueKeys-put,
}
use v3xctrl.Viewer.Coordinator.{
  Controller, Coordinator, is_spectator, defer_calls, submit, send_command,
}
use v3xctrl.Viewer.Coordinator.Dues.{
  act-extends, act_all-extends, pending_of, count_owed, due, count_task, IsTidy, Step, step_all,
  step_errors, pending_of-cases, due-defer_calls, Dues-step_all,
}

-- The error paths of the command while it is sent.
abbrev pub submit_errors : Bool → List Action → String → ℕ
submit_errors true meanwhile id = errors id meanwhile
submit_errors false meanwhile id = errors id meanwhile + 1

-- What a command that was just sent leaves: one answer or two, owed or given.
record Submitted (id : String) (c c' : Commands) (n : ℕ) : Type 0 where
  kept : owed id c + 1 ≤ owed id c'
  added : owed id c' ≤ owed id c + 1 + n
  spent : owed id c' + count_pending (get id c'.tasks) ≤ owed id c + 2
  unique : UniqueKeys c'.pending
  answering : get id c'.tasks ≢ some false
  new : List (String × Bool)
  extends : c'.called ≡ c.called ++ new

module _ (meanwhile : List Action) (id : String) (c : Commands) (u : UniqueKeys c.pending)
    (fresh : get id c.pending ≡ none) where
  Submitted-register :
      Submitted id c (act_all (put_pending id true c) meanwhile) (errors id meanwhile)
  Submitted-register =
      let start = put_pending id true c in
      let pending = get-put id id true c.pending in
      let task = get-put id id true c.tasks in
      let same = beq_refl id in
      let one : owed id start ≡ owed id c + 1 = unfold put_pending in ground arith in
      let live : get id start.tasks ≡ some true = unfold put_pending in ground arith in
      let owes =
        Owes-act_all id meanwhile start
          (unfold put_pending in UniqueKeys-put id true c.pending u fresh) (ground arith) in
      let (new, extends) = act_all-extends start meanwhile in
      record {
        kept = omega (arith, one, owes.kept);
        added = omega (arith, one, owes.added);
        spent = omega (arith, one, ap count_pending live, owes.spent);
        unique = owes.unique;
        answering = owes.answering;
        new = new;
        extends = unfold put_pending in extends;
      }

  Submitted-submit :
      (accepts : Bool)
      → Submitted id c (submit accepts meanwhile id c) (submit_errors accepts meanwhile id)
  unfolding submit
  Submitted-submit true = Submitted-register
  Submitted-submit false =
      let before = Submitted-register in
      let registered = act_all (put_pending id true c) meanwhile in
      let owes = Owes-act id registered (failed id) before.unique before.answering in
      let own : errors_in id (failed id) ≡ 1 = unfold errors_in in ground (arith, beq_refl id) in
      let (more, extends) = act-extends registered (failed id) in
      record {
        kept = omega (arith, before.kept, owes.kept);
        added = omega (arith, before.added, owes.added, own);
        spent = omega (arith, before.spent, owes.spent);
        unique = owes.unique;
        answering = owes.answering;
        new = before.new ++ more;
        extends = extends ∙ ground (arith, before.extends, append_assoc c.called before.new more);
      }

-- A command that was not sent before: its identifier is not pending and has no task.
abbrev pub IsFree : String → Option Commands → Type 0
IsFree id none = Unit {0}
IsFree id (some c) = UniqueKeys c.pending × (get id c.pending ≡ none) × (get id c.tasks ≡ none)

calls-append_self :
    (id : String) (b : Bool) (l : List (String × Bool))
    → calls id (l ++ ((id, b) ∷ [])) ≡ calls id l + 1
unfolding calls
calls-append_self id b l = ground (arith, calls-append id l ((id, b) ∷ []), beq_refl id)

-- What is due to a command that was just sent.
record Sent (id : String) (k : Coordinator) (n : ℕ) : Type 0 where
  kept : 1 ≤ due id k
  added : due id k ≤ 1 + n
  spent : due id k + count_task id (pending_of k) ≤ 2
  tidy : IsTidy id (pending_of k)

free-IsTidy :
    (id : String) (o : Option Commands)
    → IsFree id o
    → (count_owed id o ≡ 0) × (count_task id o ≡ 0) × IsTidy id o
free-IsTidy id none f = (refl, refl, tt)
free-IsTidy id (some c) f = (ap count_pending f.1, ap count_pending f.2, (f.0, ground arith))

module _ (accepts : Bool) (meanwhile : List Action) (id : String) (k : Coordinator) where
  send_command-unserved :
      is_spectator k ≡ false
      → pending_of k ≡ none
      → send_command accepts meanwhile id k ≡ record k { ran = k.ran ++ ((id, false) ∷ []) }
  unfolding send_command
  send_command-unserved h e = ground arith

  send_command-defers :
      (n : Controller) (c : Commands)
      → is_spectator k ≡ false
      → k.network_controller ≡ some n
      → n.server ≡ some c
      → send_command accepts meanwhile id k ≡ defer_calls n c (submit accepts meanwhile id c) k
  unfolding send_command
  send_command-defers n c h e s = rw h (rw (e, send_command) (rw s refl))

  -- An answer without the server.
  Sent-answered :
      (queue ran : List (String × Bool)) (n : ℕ)
      → IsFree id (pending_of k)
      → calls id ran + calls id queue ≡ 1
      → Sent id (record k { callback_queue = queue; ran = ran }) n
  unfolding due
  Sent-answered queue ran n f one =
      let (owes, task, tidy) = free-IsTidy id (pending_of k) f in
      record {
        kept = omega (arith, one);
        added = omega (arith, one, owes);
        spent = omega (arith, one, owes, task);
        tidy = tidy;
      }

  Sent-send_command :
      IsFree id (pending_of k)
      → calls id k.ran ≡ 0
      → calls id k.callback_queue ≡ 0
      → Sent id (send_command accepts meanwhile id k) (submit_errors accepts meanwhile id)
  Sent-send_command f r q = elim (Bool-cases (is_spectator k)) [
    | inl b ↦
        unfold send_command in
        rw (b, send_command)
          (Sent-answered (k.callback_queue ++ ((id, false) ∷ [])) k.ran
            (submit_errors accepts meanwhile id) f
            (omega (arith, r, q, calls-append_self id false k.callback_queue)))
    | inr b ↦ elim (pending_of-cases k) [
      | inl e ↦ rw (send_command-unserved b e) (
          Sent-answered k.callback_queue (k.ran ++ ((id, false) ∷ []))
            (submit_errors accepts meanwhile id) f
            (omega (arith, r, q, calls-append_self id false k.ran)))
      | inr (n, c, e, h) ↦
          let free : IsFree id (some c) = rw (e, h) at f in
          let sub = Submitted-submit meanwhile id c free.0 free.1 accepts in
          let balance =
            due-defer_calls id k n c (submit accepts meanwhile id c) sub.new e h sub.extends in
          let nothing : due id k ≡ 0 =
            unfold due in omega (arith, r, q, (free-IsTidy id (pending_of k) f).0) in
          rw (send_command-defers n c b e h) (record {
            kept = omega (arith, balance, nothing, sub.kept);
            added = omega (arith, balance, nothing, sub.added);
            spent = unfold defer_calls in omega (arith, balance, nothing, sub.spent);
            tidy = unfold defer_calls in (sub.unique, sub.answering);
          })
    ]
  ]

-- A command that was not sent before, whether the viewer is a spectator, has no server, or has one,
-- and whatever threads of the server do between its registration and the answer of the thread pool,
-- which may be shut down: after it was sent, and after any runs of the main thread's queue and any
-- acknowledgments, attempts, expiries, error paths and stops of commands at the server, its answers
-- that ran, that wait on the queue and that the server owes are at least one, at most two, and no more
-- than one and the error paths of this command, so that they are one where it has none.
pub send_command-answers :
    (accepts : Bool) (meanwhile : List Action) (id : String) (k : Coordinator) (xs : List Step)
    → IsFree id (pending_of k)
    → calls id k.ran ≡ 0
    → calls id k.callback_queue ≡ 0
    → (let k' = step_all (send_command accepts meanwhile id k) xs in
        let answers =
          calls id k'.ran + calls id k'.callback_queue + count_owed id (pending_of k') in
        (1 ≤ answers)
        × (answers ≤ 2)
        × (answers ≤ 1 + submit_errors accepts meanwhile id + step_errors id xs))
unfolding due
send_command-answers accepts meanwhile id k xs f r q =
    let sent = Sent-send_command accepts meanwhile id k f r q in
    let rest = Dues-step_all id xs (send_command accepts meanwhile id k) sent.tidy in
    (
      omega (arith, sent.kept, rest.kept),
      omega (arith, sent.spent, rest.spent),
      omega (arith, sent.added, rest.added),
    )
