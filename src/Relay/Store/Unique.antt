-- ===== src/Relay/Store/Unique.antt =====
-- Identifiers stay unique, and the operations agree with one another.
use v3xctrl.Base.{
  ℕ, zero, suc, ◌≡◌, refl, String, Bool, true, false, not, ◌||◌, none, some, List, [], ◌∷◌, ◌++◌,
  is_some, ◌==◌, string_eq, arith, any, keep_if, beq_refl, Bool-cases, ◌⊎◌, inl, inr,
}
use v3xctrl.Relay.Session.{find_first}
use v3xctrl.Relay.Store.{
  Row, Table, Error, Result, ok, raised, get, is_used, draw_unique, generate_unique_id, draw_pair,
  generate_unique_id_pair, insert, create, exists, get_session_id_from_spectator_id, delete,
}

draw_unique-unused :
    (n : ℕ) (t : Table) (draws : List String) {x : String} {rest : List String}
    → draw_unique n t draws ≡ ok (x, rest)
    → is_used x t ≡ false
unfolding draw_unique
draw_unique-unused zero t draws h = cc
draw_unique-unused (suc n) t [] h = cc
draw_unique-unused (suc n) t (y ∷ draws) {x} {rest} h =
    ground (arith, draw_unique-unused n t draws {x = x} {rest = rest})

pub Result-cases {ℓ} :
    {A : Type ℓ} (r : Result A) → ((e : Error) × (r ≡ raised e)) ⊎ ((a : A) × (r ≡ ok a))
Result-cases (ok a) = inr (a, refl)
Result-cases (raised e) = inl (e, refl)

abbrev pub AreFresh : Table → String → String → Type 0
AreFresh t session_id spectator_id =
    (is_used session_id t ≡ false)
    × (is_used spectator_id t ≡ false)
    × ((session_id == spectator_id) ≡ false)

draw_pair-fresh :
    (n : ℕ) (t : Table) (draws : List String) (a b : String)
    → draw_pair n t draws ≡ ok (a, b)
    → AreFresh t a b
unfolding draw_pair generate_unique_id
draw_pair-fresh zero t draws a b h = cc
draw_pair-fresh (suc n) t draws a b h = elim (Result-cases (draw_unique 5 t draws)) [
  | inl (e, p) ↦ cc (rw (p, draw_pair) at h)
  | inr ((x, draws'), p) ↦
      let h1 = rw (p, draw_pair) at h in
      elim (Result-cases (draw_unique 5 t draws')) [
        | inl (e, q) ↦ cc (rw q at h1)
        | inr ((y, draws''), q) ↦
            let h2 = rw q at h1 in
            elim (Bool-cases (x == y)) [
              | inl same ↦ draw_pair-fresh n t draws'' a b (rw same at h2)
              | inr other ↦
                  let h3 = rw other at h2 in
                  let used_x = draw_unique-unused 5 t draws p in
                  let used_y = draw_unique-unused 5 t draws' q in ground arith
            ]
      ]
]

-- The pair that is drawn: two different identifiers, neither of them used in any row.
generate_unique_id_pair-fresh :
    (t : Table) (draws : List String) (session_id spectator_id : String)
    → generate_unique_id_pair t draws ≡ ok (session_id, spectator_id)
    → AreFresh t session_id spectator_id
unfolding generate_unique_id_pair
generate_unique_id_pair-fresh t draws a b h = draw_pair-fresh 5 t draws a b h

find-append_new :
    (p : Row → Bool) (t : Table) (row : Row)
    → any p t ≡ false
    → p row ≡ true
    → find_first p (t ++ (row ∷ [])) ≡ some row
unfolding find_first any
find-append_new p [] row h k = ground arith
find-append_new p (x ∷ t) row h k = ground (arith, find-append_new p t row)

any-append : (p : Row → Bool) (t u : Table) → any p (t ++ u) ≡ (any p t || any p u)
unfolding any
any-append p [] u = ground arith
any-append p (x ∷ t) u = ground (arith, any-append p t u)

insert-found :
    (row : Row) (t t' : Table)
    → insert row t ≡ ok t'
    → (get row.discord_user_id t' ≡ some (row.id, row.spectator_id))
      × (exists row.id t' ≡ true)
      × (get_session_id_from_spectator_id row.spectator_id t' ≡ some row.id)
unfolding insert get exists get_session_id_from_spectator_id any
insert-found row t t' h =
    let by_user = λ (r : Row). r.discord_user_id == row.discord_user_id in
    let by_spectator = λ (r : Row). r.spectator_id == row.spectator_id in
    let by_id = λ (r : Row). r.id == row.id in
    let added = t ++ (row ∷ []) in
    let same : t' ≡ added = ground arith in
    rw same (
      ground (arith, find-append_new by_user t row, beq_refl row.discord_user_id),
      ground (arith, any-append by_id t (row ∷ []), beq_refl row.id),
      ground (arith, find-append_new by_spectator t row, beq_refl row.spectator_id),
    )

-- A session that is created is found again by its user, by its identifier and by its spectator's.
pub create-found :
    (user username : String) (draws : List String) (t t' : Table) (a b : String)
    → create user username draws t ≡ ok (t', a, b)
    → (get user t' ≡ some (a, b))
      × (exists a t' ≡ true)
      × (get_session_id_from_spectator_id b t' ≡ some a)
unfolding create
create-found user username draws t t' a b h =
    elim (Result-cases (generate_unique_id_pair t draws)) [
      | inl (e, p) ↦ cc (rw (p, create) at h)
      | inr ((x, y), p) ↦
          let row : Row = record {
            id = x;
            spectator_id = y;
            discord_user_id = user;
            discord_username = username;
          } in
          let h1 = rw (p, create) at h in
          elim (Result-cases (insert row t)) [
            | inl (e, q) ↦ cc (rw q at h1)
            | inr (u, q) ↦ let h2 = rw q at h1 in let found = insert-found row t u q in ground arith
          ]
    ]

find_first-none : (p : Row → Bool) (t : Table) → any p t ≡ false → find_first p t ≡ none
unfolding find_first any
find_first-none p [] h = refl
find_first-none p (x ∷ t) h = ground (arith, find_first-none p t)

any-dropped : (p : Row → Bool) (t : Table) → any p (keep_if (λ r. not (p r)) t) ≡ false
unfolding any keep_if
any-dropped p [] = refl
any-dropped p (x ∷ t) = ground (arith, any-dropped p t)

is_some-find_first : (p : Row → Bool) (t : Table) → is_some (find_first p t) ≡ any p t
unfolding find_first any
is_some-find_first p [] = refl
is_some-find_first p (x ∷ t) = ground (arith, is_some-find_first p t)

-- After delete the user has no session; the flag tells whether there was one.
pub delete-gone :
    (user : String) (t : Table)
    → (get user (delete user t).0 ≡ none) × ((delete user t).1 ≡ is_some (get user t))
unfolding delete get
delete-gone user t =
    let by_user = λ (r : Row). r.discord_user_id == user in
    (
      ground (
        arith,
        find_first-none by_user (keep_if (λ r. not (by_user r)) t),
        any-dropped by_user t,
      ),
      ground (arith, is_some-find_first by_user t),
    )
