-- ===== src/Relay/Bot/Deliveries.antt =====
-- What the bot hands out, and what it takes back.
use mathlib.Core.List.{append-nil}
use v3xctrl.Base.{
  ◌≡◌, refl, String, Bool, true, false, not, none, List, [], ◌∷◌, ◌++◌, ◌==◌, string_eq, arith, any,
  keep_if, inl, inr, beq_refl, Option-cases,
}
use v3xctrl.Base.Dict.{get, pop, get-pop_self}
use v3xctrl.Relay.Store.{
  Row, Table, Error, integrity_error, Result, raised, ok, create, insert, delete, has_user,
  generate_unique_id_pair,
}
use v3xctrl.Relay.Store
use v3xctrl.Relay.Store.Unique.{create-found, Result-cases}
use v3xctrl.Relay.Bot.{
  delivered, sent_ids, deliver, deliver_new, failure, handle_requestid_command, Testdrives,
  rolled_back, composed_key, Contact, contact_both, finish_accept,
}

-- Whoever is sent identifiers by the command for them is sent the same ones when the command is given
-- again, whatever is drawn, and the table stays as it is.
handle_requestid_command-again :
    (user username : String) (draws draws' : List String) (t : Table) (a b : String)
    → (handle_requestid_command true user username draws delivered t).1 ≡ sent_ids a b
    → (let t' = (handle_requestid_command true user username draws delivered t).0 in
        handle_requestid_command true user username draws' delivered t' ≡ (t', sent_ids a b))
unfolding handle_requestid_command deliver_new deliver failure
handle_requestid_command-again user username draws draws' t a b h =
    elim (Option-cases (Store.get user t)) [
      | inr ((x, y), e) ↦ ground arith
      | inl e ↦ elim (Result-cases (create user username draws t)) [
        | inl (err, r) ↦ ground arith
        | inr ((t', x, y), r) ↦ ground (arith, create-found user username draws t t' x y r)
      ]
    ]

keep_others :
    (key : String) (t : Table)
    → has_user key t ≡ false
    → keep_if (λ row. not (row.discord_user_id == key)) t ≡ t
unfolding keep_if any
keep_others key [] h = refl
keep_others key (row ∷ t) h = ground (arith, keep_others key t)

keep_if-append : (p : Row → Bool) (t u : Table) → keep_if p (t ++ u) ≡ keep_if p t ++ keep_if p u
unfolding keep_if
keep_if-append p [] u = refl
keep_if-append p (row ∷ t) u = ground (arith, keep_if-append p t u)

-- What create adds, delete takes away.
insert-delete :
    (row : Row) (t t' : Table)
    → insert row t ≡ ok t'
    → (t' ≡ t ++ (row ∷ [])) × (has_user row.discord_user_id t ≡ false)
unfolding insert
insert-delete row t t' h = (ground arith, ground arith)

create-delete :
    (user username : String) (draws : List String) (t t' : Table) (a b : String)
    → create user username draws t ≡ ok (t', a, b)
    → (delete user t').0 ≡ t
unfolding create delete keep_if
create-delete user username draws t t' a b h =
    elim (Result-cases (generate_unique_id_pair t draws)) [
      | inl (e, p) ↦ cc (rw (p, create) at h)
      | inr ((x, y), p) ↦
          let row : Row = record {
            id = x;
            spectator_id = y;
            discord_user_id = user;
            discord_username = username;
          } in
          let h1 = rw (p, create) at h in
          elim (Result-cases (insert row t)) [
            | inl (e, q) ↦ cc (rw q at h1)
            | inr (u, q) ↦
                let h2 = rw q at h1 in
                let (added, fresh) = insert-delete row t u q in
                ground (
                  arith,
                  keep_if-append (λ r. not (r.discord_user_id == user)) t (row ∷ []),
                  keep_others user t fresh,
                  beq_refl user,
                  append-nil t,
                )
          ]
    ]

contact_both-rolled_back :
    (key : String) (c : Contact) (d : Testdrives)
    → (contact_both key c d).1 ≡ rolled_back
    → (contact_both key c d).0 ≡ record d { store = (delete key d.store).0 }
unfolding contact_both
contact_both-rolled_back key c d h = ground arith

finish_accept-created :
    (requester host username : String) (draws : List String) (c : Contact) (d : Testdrives)
    (t : Table) (a b : String)
    → create (composed_key requester host) username draws d.store ≡ ok (t, a, b)
    → finish_accept requester host username draws c d
      ≡ contact_both
          (composed_key requester host)
          c
          (record { pending_requests = pop requester d.pending_requests; store = t })
unfolding finish_accept
finish_accept-created requester host username draws c d t a b p = rw (p, finish_accept) refl

-- If a test drive is rolled back, as the guest is not found or one of the two takes no messages, and no
-- other handler runs meanwhile: the table of sessions is what it was before the acceptance, and the
-- request is no longer pending.
pub finish_accept-rolled_back :
    (requester host username : String) (draws : List String) (c : Contact) (d : Testdrives)
    → (finish_accept requester host username draws c d).1 ≡ rolled_back
    → ((finish_accept requester host username draws c d).0.store ≡ d.store)
      × (get requester (finish_accept requester host username draws c d).0.pending_requests ≡ none)
unfolding finish_accept
finish_accept-rolled_back requester host username draws c d h =
    let key = composed_key requester host in
    elim (Result-cases (create key username draws d.store)) [
      | inl (e, p) ↦ let h1 = rw (p, finish_accept) at h in absurd (ground arith)
      | inr ((t, a, b), p) ↦
          let d' : Testdrives = record {
            pending_requests = pop requester d.pending_requests;
            store = t;
          } in
          let created = finish_accept-created requester host username draws c d t a b p in
          let h1 : (contact_both key c d').1 ≡ rolled_back = rw created at h in
          rw created (
            rw (contact_both-rolled_back key c d' h1) (
              create-delete key username draws d.store t a b p,
              get-pop_self requester d.pending_requests,
            ))
    ]
