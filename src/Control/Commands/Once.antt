-- ===== src/Control/Commands/Once.antt =====
-- How often a command is answered, whatever comes between its attempts.
use v3xctrl.Base.{
  ℕ, suc, ◌+◌, ◌≤◌, ◌≡◌, ◌≢◌, refl, String, Bool, true, false, Option, none, some, List, [], ◌∷◌,
  ◌++◌, ◌==◌, string_eq, arith, if◌then◌else◌, beq_refl, Option-cases, Bool-cases, inl, inr,
}
use v3xctrl.Base.Dict.{Dict, get, put, pop, get-put, get-pop}
use v3xctrl.Control.Commands.{
  Commands, send_command, attempt, give_up, fail, command_ack_handler, fail_all, stop,
}

-- how often the callback of a command was called
unfoldable pub calls : String → List (String × Bool) → ℕ
calls id [] = 0
calls id ((j, result) ∷ l) = let rest = calls id l in if j == id then suc rest else rest

pub calls-append :
    (id : String) (l k : List (String × Bool)) → calls id (l ++ k) ≡ calls id l + calls id k
unfolding calls
calls-append id [] k = omega arith
calls-append id ((j, b) ∷ l) k = ground (arith, calls-append id l k)

-- Each key stands once in the dictionary.
abbrev pub UniqueKeys : Dict String Bool → Type 0
UniqueKeys [] = Unit
UniqueKeys ((k, v) ∷ d) = (get k d ≡ none) × UniqueKeys d

abbrev pub count_pending : Option Bool → ℕ
count_pending (some true) = 1
count_pending _ = 0

-- calls made and calls still owed
abbrev pub owed : String → Commands → ℕ
owed id c = calls id c.called + count_pending (get id c.pending)

calls-fail_all :
    (id : String) (d : Dict String Bool)
    → UniqueKeys d
    → calls id (fail_all d) ≡ count_pending (get id d)
unfolding calls fail_all get
calls-fail_all id [] u = refl
calls-fail_all id ((k, b) ∷ d) u = ground (arith, calls-fail_all id d u.1, string_eq.same_iff k id)

-- The actions on the commands after a command was registered; none of them sends it again. `failed`
-- is either error path, of a command whose task has not ended.
pub data Action : Type 0 where
  acknowledged attempted expired failed : String → Action
  stopped : Action

unfoldable pub act : Commands → Action → Commands
act c (acknowledged id) = command_ack_handler id c
act c (attempted id) = (attempt id c).0
act c (expired id) = give_up id c
act c (failed id) = fail id c
act c stopped = stop c

unfoldable pub act_all : Commands → List Action → Commands
act_all c [] = c
act_all c (a ∷ as') = act_all (act c a) as'

pub UniqueKeys-pop : (id : String) (d : Dict String Bool) → UniqueKeys d → UniqueKeys (pop id d)
unfolding pop
UniqueKeys-pop id [] u = tt
UniqueKeys-pop id ((k, b) ∷ d) u = elim (Bool-cases (k == id)) [
  | inl e ↦ rw e (UniqueKeys-pop id d u.1)
  | inr e ↦ rw e (ground (arith, get-pop id k d), UniqueKeys-pop id d u.1)
]

-- How often an action is an error path of the command.
unfoldable pub errors_in : String → Action → ℕ
errors_in id (failed other) = if other == id then 1 else 0
errors_in id (acknowledged other) = 0
errors_in id (attempted other) = 0
errors_in id (expired other) = 0
errors_in id stopped = 0

unfoldable pub errors : String → List Action → ℕ
errors id [] = 0
errors id (a ∷ as') = errors_in id a + errors id as'

-- What one action may do to what is owed: it is never less, it is more only by an error path, and such
-- a path is the end of the task.
pub record Owes (id : String) (c c' : Commands) (n : ℕ) : Type 0 where
  pub kept : owed id c ≤ owed id c'
  pub added : owed id c' ≤ owed id c + n
  pub spent :
      owed id c' + count_pending (get id c'.tasks) ≤ owed id c + count_pending (get id c.tasks)
  pub answering : get id c'.tasks ≢ some false
  pub unique : UniqueKeys c'.pending

module _ (id other : String) (c : Commands) (u : UniqueKeys c.pending)
    (t : get id c.tasks ≢ some false) where
  Owes-command_ack_handler : Owes id c (command_ack_handler other c) 0
  unfolding command_ack_handler calls
  Owes-command_ack_handler = elim (Option-cases (get other c.pending)) [
    | inl e ↦ rw (e, command_ack_handler) (ground arith)
    | inr (b, e) ↦
        rw (e, command_ack_handler)
          (ground (
            arith,
            get-pop other id c.pending,
            string_eq.same_iff other id,
            calls-append id c.called ((other, true) ∷ []),
            UniqueKeys-pop other c.pending u,
          ))
  ]

  Owes-attempt : Owes id c (attempt other c).0 0
  unfolding attempt
  Owes-attempt = ground (arith, get-pop other id c.tasks)

  Owes-give_up : Owes id c (give_up other c) 0
  unfolding give_up calls
  Owes-give_up = elim (Option-cases (get other c.pending)) [
    | inl e ↦ rw (e, give_up) (ground (arith, get-pop other id c.tasks))
    | inr (b, e) ↦
        rw (e, give_up)
          (ground (
            arith,
            get-pop other id c.pending,
            get-pop other id c.tasks,
            string_eq.same_iff other id,
            calls-append id c.called ((other, false) ∷ []),
            UniqueKeys-pop other c.pending u,
          ))
  ]

  Owes-fail : Owes id c (fail other c) (errors_in id (failed other))
  unfolding fail calls errors_in
  Owes-fail = elim (Option-cases (get other c.tasks)) [
    | inl e ↦ rw (e, fail) (ground arith)
    | inr (b, e) ↦
        rw (e, fail)
          (ground (
            arith,
            get-pop other id c.pending,
            get-pop other id c.tasks,
            string_eq.same_iff other id,
            calls-append id c.called ((other, false) ∷ []),
            UniqueKeys-pop other c.pending u,
          ))
  ]

  Owes-stop : Owes id c (stop c) 0
  unfolding stop get
  Owes-stop =
      ground (arith, calls-append id c.called (fail_all c.pending), calls-fail_all id c.pending u)

pub Owes-act :
    (id : String) (c : Commands) (a : Action)
    → UniqueKeys c.pending
    → get id c.tasks ≢ some false
    → Owes id c (act c a) (errors_in id a)
unfolding act errors_in
Owes-act id c (acknowledged other) u t = Owes-command_ack_handler id other c u t
Owes-act id c (attempted other) u t = Owes-attempt id other c u t
Owes-act id c (expired other) u t = Owes-give_up id other c u t
Owes-act id c (failed other) u t = Owes-fail id other c u t
Owes-act id c stopped u t = Owes-stop id id c u t

pub Owes-act_all :
    (id : String) (as' : List Action) (c : Commands)
    → UniqueKeys c.pending
    → get id c.tasks ≢ some false
    → Owes id c (act_all c as') (errors id as')
unfolding act_all errors
Owes-act_all id [] c u t = ground arith
Owes-act_all id (a ∷ as') c u t =
    let one = Owes-act id c a u t in
    let rest = Owes-act_all id as' (act c a) one.unique one.answering in
    record {
      kept = omega (arith, one.kept, rest.kept);
      added = omega (arith, one.added, rest.added);
      spent = omega (arith, one.spent, rest.spent);
      answering = rest.answering;
      unique = rest.unique;
    }

pub UniqueKeys-put :
    (id : String) (b : Bool) (d : Dict String Bool)
    → UniqueKeys d
    → get id d ≡ none
    → UniqueKeys (put id b d)
unfolding put get
UniqueKeys-put id b [] u h = (refl, tt)
UniqueKeys-put id b ((k, v) ∷ d) u h = elim (Bool-cases (k == id)) [
  | inl e ↦ rw e (u.0, u.1)
  | inr e ↦ rw e (
    ground (arith, get-put id k b d, string_eq.same_iff k id, string_eq.same_iff id k),
    UniqueKeys-put id b d u.1 (ground arith),
  )
]

-- A command with a callback that was not used before: after it was registered, and after any sequence
-- of acknowledgments, attempts, expiries, error paths and stops of any commands, the calls of its
-- callback, with one more if it is still pending, are at least one, at most two, and no more than one
-- and the error paths of this command, so that they are one where it has none.
pub send_command-once :
    (id : String) (c : Commands) (as' : List Action)
    → UniqueKeys c.pending
    → get id c.pending ≡ none
    → calls id c.called ≡ 0
    → (let c' = act_all (send_command id true c) as' in
        let answers = calls id c'.called + count_pending (get id c'.pending) in
        (1 ≤ answers) × (answers ≤ 2) × (answers ≤ 1 + errors id as'))
unfolding send_command
send_command-once id c as' u fresh unused =
    let start = send_command id true c in
    let owes =
      Owes-act_all id as' start (UniqueKeys-put id true c.pending u fresh)
        (ground (arith, get-put id id true c.tasks, beq_refl id)) in
    let pending = get-put id id true c.pending in
    let task = get-put id id true c.tasks in
    let same = beq_refl id in
    let kept = owes.kept in
    let added = owes.added in let spent = owes.spent in (ground arith, ground arith, ground arith)

-- A command with a callback that was not used before: a stop of the server between its registration
-- and the refusal of its task calls the callback a second time.
pub stop-answers_twice :
    (id : String) (c : Commands)
    → UniqueKeys c.pending
    → get id c.pending ≡ none
    → calls id c.called ≡ 0
    → calls id (act_all (send_command id true c) (stopped ∷ failed id ∷ [])).called ≡ 2
unfolding act_all act send_command stop fail calls
stop-answers_twice id c u fresh unused =
    let registered = put id true c.pending in
    ground (
      arith,
      beq_refl id,
      get-put id id true c.tasks,
      get-put id id true c.pending,
      calls-fail_all id registered (UniqueKeys-put id true c.pending u fresh),
      calls-append id c.called (fail_all registered),
      calls-append id (c.called ++ fail_all registered) ((id, false) ∷ []),
    )
