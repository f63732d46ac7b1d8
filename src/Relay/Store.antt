-- ===== src/Relay/Store.antt =====
-- SessionStore.py over the table of init_db (helper.py): id is the primary key, spectator_id and
-- discord_user_id are unique. The identifiers that `secrets` draws are an argument, in the order in
-- which they are drawn; `created_at`, which nothing reads, is left out.
pub mod Unique
use v3xctrl.Base.{
  ℕ, zero, suc, String, Bool, true, false, not, ◌&&◌, ◌||◌, Option, none, some, List, [], ◌∷◌, ◌++◌,
  ◌==◌, string_eq, any, keep_if, map, is_some, if◌then◌else◌,
}
use v3xctrl.Relay.Session.{find_first}

pub record Row : Type 0 where
  pub id : String
  pub spectator_id : String
  pub discord_user_id : String
  pub discord_username : String

abbrev pub Table : Type 0
Table = List Row

-- RuntimeError: no unused identifier was drawn, no two different ones were, the user has a session
-- already, or another column is not unique.
pub data Error : Type 0 where
  no_unique_id no_different_ids already_exists integrity_error : Error

pub data Result {κ} (T : Type κ) : Type κ where
  raised : Error → Result T
  ok : T → Result T

-- get
unfoldable pub get : String → Table → Option (String × String)
get user t = elim (find_first (λ row. row.discord_user_id == user) t) [
  | none ↦ none
  | some row ↦ some (row.id, row.spectator_id)
]

-- `SELECT 1 … WHERE id = ? OR spectator_id = ?`
unfoldable pub is_used : String → Table → Bool
is_used x t = any (λ row. row.id == x || row.spectator_id == x) t

-- `for _ in range(n)` of _generate_unique_id, with the draws that are left
unfoldable pub draw_unique : ℕ → Table → List String → Result (String × List String)
draw_unique zero t draws = raised no_unique_id
draw_unique (suc n) t [] = raised no_unique_id
draw_unique (suc n) t (x ∷ draws) =
    let rest = draw_unique n t draws in if is_used x t then rest else ok (x, draws)

-- _generate_unique_id
unfoldable pub generate_unique_id : Table → List String → Result (String × List String)
unfolding draw_unique
generate_unique_id t draws = draw_unique 5 t draws

unfoldable pub draw_pair : ℕ → Table → List String → Result (String × String)
draw_pair zero t draws = raised no_different_ids
draw_pair (suc n) t draws = elim (generate_unique_id t draws) [
  | raised e ↦ raised e
  | ok (session_id, draws') ↦ elim (generate_unique_id t draws') [
    | raised e ↦ raised e
    | ok (spectator_id, draws'') ↦
        let rest = draw_pair n t draws'' in
        if session_id == spectator_id then rest else ok (session_id, spectator_id)
  ]
]

-- _generate_unique_id_pair
unfoldable pub generate_unique_id_pair : Table → List String → Result (String × String)
unfolding draw_pair
generate_unique_id_pair t draws = draw_pair 5 t draws

abbrev pub has_user : String → Table → Bool
has_user user t = any (λ row. row.discord_user_id == user) t

-- `INSERT`: the constraints of the table.
unfoldable pub insert : Row → Table → Result Table
insert row t =
    if any (λ r. r.id == row.id) t || any (λ r. r.spectator_id == row.spectator_id) t
    then raised integrity_error
    else if has_user row.discord_user_id t
    then raised already_exists
    else ok (t ++ (row ∷ []))

unfoldable pub create : String → String → List String → Table → Result (Table × String × String)
create user username draws t = elim (generate_unique_id_pair t draws) [
  | raised e ↦ raised e
  | ok (session_id, spectator_id) ↦
      elim (insert
        (record {
          id = session_id;
          spectator_id = spectator_id;
          discord_user_id = user;
          discord_username = username;
        })
        t) [ raised e ↦ raised e | ok t' ↦ ok (t', session_id, spectator_id) ]
]

-- `UPDATE … WHERE discord_user_id = ?`; a user that is not there changes no row.
unfoldable pub set_ids : String → String → String → String → Table → Table
set_ids user username session_id spectator_id t =
    map
      (λ row.
        if row.discord_user_id == user
        then record row {
          id = session_id;
          spectator_id = spectator_id;
          discord_username = username;
        }
        else row)
      t

unfoldable pub update : String → String → List String → Table → Result (Table × String × String)
update user username draws t = elim (generate_unique_id_pair t draws) [
  | raised e ↦ raised e
  | ok (session_id, spectator_id) ↦
      ok (set_ids user username session_id spectator_id t, session_id, spectator_id)
]

unfoldable pub exists : String → Table → Bool
exists session_id t = any (λ row. row.id == session_id) t

unfoldable pub get_session_id_from_spectator_id : String → Table → Option String
get_session_id_from_spectator_id spectator_id t =
    elim (find_first (λ row. row.spectator_id == spectator_id) t) [
      | none ↦ none
      | some row ↦ some row.id
    ]

-- delete; the flag is `rowcount > 0`.
unfoldable pub delete : String → Table → Table × Bool
delete user t = (keep_if (λ row. not (row.discord_user_id == user)) t, has_user user t)
