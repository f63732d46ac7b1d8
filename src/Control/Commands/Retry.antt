-- ===== src/Control/Commands/Retry.antt =====
-- The retries of a command that nobody acknowledges.
use v3xctrl.Base.{
  ℕ, zero, suc, ◌≡◌, String, true, false, string_eq, some, List, [], ◌∷◌, ◌++◌, arith,
}
use v3xctrl.Base.Dict.{get, pop}
use mathlib.Core.List.{append_assoc, append-nil}
use v3xctrl.Control.Commands.{Commands, attempt, give_up, retry_task}

unfoldable pub replicate : ℕ → String → List String
replicate zero id = []
replicate (suc n) id = id ∷ replicate n id

-- A pending command with a callback that nobody acknowledges: its task transmits it as often as
-- there are attempts, then takes it from the pending commands and calls the callback with False.
pub retry_task_lem :
    (n : ℕ) (id : String) (c : Commands)
    → get id c.pending ≡ some true
    → retry_task n id c ≡ record {
      pending = pop id c.pending;
      tasks = pop id c.tasks;
      called = c.called ++ ((id, false) ∷ []);
      transmitted = c.transmitted ++ replicate n id;
    }
unfolding retry_task give_up attempt replicate
retry_task_lem zero id c h = rw (h, give_up) (ground (arith, append-nil c.transmitted))
retry_task_lem (suc n) id c h =
    let c' = record c { transmitted = c.transmitted ++ (id ∷ []) } in
    ground (arith, retry_task_lem n id c' h, append_assoc c.transmitted (id ∷ []) (replicate n id))
