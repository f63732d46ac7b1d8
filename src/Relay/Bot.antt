-- ===== src/Relay/Bot.antt =====
-- discord_bot/Bot.py and discord_bot/testdrive.py: the commands that hand out session identifiers, and
-- the test drives, over the table of SessionStore.py. What Discord answers is an argument. The
-- texts of messages are left out: a handler tells what it answered. Requests and
-- acceptances of a test drive run up to their first await in one step, and from there in another; the
-- other handlers, whose tests read no state, are one step.
pub mod Deliveries
use Prim.Native.String.{◌++◌ as str_append}
use v3xctrl.Base.{
  ℕ, String, Bool, true, false, not, ◌&&◌, ◌||◌, Option, none, some, List, [], ◌∷◌, ◌==◌, ltb, leb,
  string_eq, nat_eq, is_some, if◌then◌else◌,
}
use v3xctrl.Base.Dict.{Dict, get, has, put, pop}
use v3xctrl.Relay.Store.{
  Table, Error, already_exists, no_unique_id, no_different_ids, integrity_error, Result, raised, ok,
  create, update, delete,
}
use v3xctrl.Relay.Store

-- A direct message: delivered, discord.Forbidden, or another exception.
pub data Delivery : Type 0 where
  delivered forbidden crashed : Delivery

pub data Answer : Type 0 where
  -- the command came from another channel
  ignored : Answer
  -- the identifiers were sent, with the session's first
  sent_ids : String → String → Answer
  -- "Failed to generate …", "I couldn't DM you …", and an exception that leaves the handler
  generation_failed cannot_message exception : Answer

-- The RuntimeErrors of the store; an IntegrityError of another column leaves the handler.
unfoldable pub is_runtime_error : Error → Bool
is_runtime_error integrity_error = false
is_runtime_error _ = true

-- The end of both commands: the direct message with the identifiers.
unfoldable pub deliver : Delivery → String → String → Answer
deliver delivered session_id spectator_id = sent_ids session_id spectator_id
deliver forbidden session_id spectator_id = cannot_message
deliver crashed session_id spectator_id = exception

unfoldable pub failure : Error → Answer
unfolding is_runtime_error
failure e = if is_runtime_error e then generation_failed else exception

-- A store's method that gives a pair of identifiers, and the message with them.
unfoldable pub deliver_new : Delivery → Table → Result (Table × String × String) → Table × Answer
unfolding deliver failure
deliver_new dm t (raised e) = (t, failure e)
deliver_new dm t (ok (t', session_id, spectator_id)) = (t', deliver dm session_id spectator_id)

-- handle_requestid_command; the channel's check is the flag.
unfoldable pub handle_requestid_command :
    Bool → String → String → List String → Delivery → Table → Table × Answer
unfolding deliver deliver_new
handle_requestid_command correct_channel user_id username draws dm t =
    if correct_channel
    then (elim (Store.get user_id t) [
      | some (session_id, spectator_id) ↦ (t, deliver dm session_id spectator_id)
      | none ↦ deliver_new dm t (create user_id username draws t)
    ])
    else (t, ignored)

unfoldable pub handle_renewid_command :
    Bool → String → String → List String → Delivery → Table → Table × Answer
unfolding deliver_new
handle_renewid_command correct_channel user_id username draws dm t =
    if correct_channel
    then deliver_new dm t (
        if is_some (Store.get user_id t)
        then update user_id username draws t
        else create user_id username draws t)
    else (t, ignored)

-- on_message: whether the message is deleted.
unfoldable pub on_message : ℕ → Option ℕ → ℕ → Bool → Bool
on_message channel_id testdrive_channel_id message_channel is_own =
    (message_channel == channel_id
      || elim testdrive_channel_id [ none ↦ false | some c ↦ not (c == 0) && message_channel == c ])
    && not is_own

-- TestdriveHandler: the requests with their messages, and the table of the store.
pub record Testdrives : Type 0 where
  pub pending_requests : Dict String ℕ
  pub store : Table

pub data Outcome : Type 0 where
  -- a refusal that only the user sees, or no reaction at all
  refused unanswered : Outcome
  -- the handler awaits its first answer and goes on
  deferred : Outcome
  requested cancelled rolled_back accepted invalidated : Outcome
  not_created raised_exception : Outcome
  rated : ℕ → Outcome

-- _has_pending_or_active_testdrive; `active` is get_testdrive_by_user, a LIKE query.
unfoldable pub has_testdrive : (String → Table → Bool) → String → Testdrives → Bool
has_testdrive active user d = has user d.pending_requests || active user d.store

-- _handle_request up to its first await, and the rest, with the identifier of the message sent.
unfoldable pub begin_request : (String → Table → Bool) → String → Bool → Testdrives → Outcome
unfolding has_testdrive
begin_request active requester in_guild d =
    if has_testdrive active requester d then refused else if in_guild then deferred else refused

unfoldable pub finish_request : String → ℕ → Testdrives → Testdrives × Outcome
finish_request requester message d =
    (record d { pending_requests = put requester message d.pending_requests }, requested)

unfoldable pub handle_cancel : String → String → Testdrives → Testdrives × Outcome
handle_cancel user requester d =
    if user == requester
    then (record d { pending_requests = pop requester d.pending_requests }, cancelled)
    else (d, refused)

-- f"{requester_id}:{host_id}"
unfoldable pub composed_key : String → String → String
composed_key requester host = str_append requester (str_append ":" host)

unfoldable pub begin_accept : String → String → Testdrives → Outcome
begin_accept requester host d =
    if not (has requester d.pending_requests)
    then refused
    else if host == requester
    then refused
    else deferred

-- Whether the guest is found, and what becomes of the two messages.
pub record Contact : Type 0 where
  pub guest_found : Bool
  pub to_host : Delivery
  pub to_guest : Delivery

unfoldable pub is_crash : Delivery → Bool
is_crash crashed = true
is_crash _ = false

unfoldable pub is_delivered : Delivery → Bool
is_delivered delivered = true
is_delivered _ = false

-- An exception other than discord.Forbidden leaves the handler; it is the host's turn first.
unfoldable pub has_crashed : Contact → Bool
unfolding is_crash
has_crashed c = is_crash c.to_host || (c.guest_found && is_crash c.to_guest)

unfoldable pub dm_failed : Contact → Bool
unfolding is_delivered
dm_failed c = not (c.guest_found && (is_delivered c.to_host && is_delivered c.to_guest))

-- The messages with the identifiers, and the rollback
unfoldable pub contact_both : String → Contact → Testdrives → Testdrives × Outcome
unfolding has_crashed dm_failed
contact_both key c d =
    if has_crashed c
    then (d, raised_exception)
    else if dm_failed c
    then (record d { store = (delete key d.store).0 }, rolled_back)
    else (d, accepted)

-- _handle_accept after its first await
unfoldable pub finish_accept :
    String → String → String → List String → Contact → Testdrives → Testdrives × Outcome
unfolding contact_both is_runtime_error
finish_accept requester host username draws c d =
    let key = composed_key requester host in
    elim (create key username draws d.store) [
      | raised e ↦ (d, if is_runtime_error e then not_created else raised_exception)
      | ok (t, session_id, spectator_id) ↦
          contact_both key c
            (record { pending_requests = pop requester d.pending_requests; store = t })
    ]

unfoldable pub handle_invalidate : String → String → String → Testdrives → Testdrives × Outcome
unfolding composed_key
handle_invalidate user guest host d =
    if user == host
    then (record d { store = (delete (composed_key guest host) d.store).0 }, invalidated)
    else (d, refused)

unfoldable pub handle_rate : String → String → ℕ → Outcome
handle_rate user guest stars =
    if user == guest
    then (if leb 1 stars && leb stars 5 then rated stars else unanswered)
    else refused
