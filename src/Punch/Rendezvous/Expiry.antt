-- ===== src/Punch/Rendezvous/Expiry.antt =====
-- Which sessions a round of the cleanup removes. A dictionary holds each key once.
use v3xctrl.Base.{
  ℕ, ◌≡◌, refl, String, false, none, some, List, [], ◌∷◌, string_eq, if◌then◌else◌, arith,
}
use v3xctrl.Base.Dict.{get, has, pop, get-pop}
use v3xctrl.Base.Sets.{contains}
use v3xctrl.Punch.Rendezvous.{
  Sessions, is_expired, expired_sids, delete_all, clean_expired_sessions,
}

unfoldable pub HasUniqueKeys : Sessions → Type 0
HasUniqueKeys [] = Unit {0}
HasUniqueKeys ((sid, peers) ∷ s) = (has sid s ≡ false) × HasUniqueKeys s

get-delete_all :
    (sid : String) (sids : List String) (s : Sessions)
    → get sid (delete_all sids s) ≡ (if contains sid sids then none else get sid s)
unfolding delete_all contains
get-delete_all sid [] s = refl
get-delete_all sid (x ∷ sids) s = ground (arith, get-delete_all sid sids (pop x s), get-pop x sid s)

contains-expired_sids :
    (now : ℕ) (sid : String) (s : Sessions)
    → HasUniqueKeys s
    → contains sid (expired_sids now s)
      ≡ elim (get sid s) [ none ↦ false | some peers ↦ is_expired now peers ]
unfolding HasUniqueKeys expired_sids contains get
contains-expired_sids now sid [] u = refl
contains-expired_sids now sid ((x, peers) ∷ s) u =
    ground (arith, contains-expired_sids now sid s u.1, string_eq.same_iff x sid)

-- A round of the cleanup removes the sessions whose entries are all older than the timeout, and
-- keeps every other session as it is.
pub get-clean_expired_sessions :
    (now : ℕ) (sid : String) (s : Sessions)
    → HasUniqueKeys s
    → get sid (clean_expired_sessions now s) ≡ elim (get sid s) [
      | none ↦ none
      | some peers ↦ if is_expired now peers then none else some peers
    ]
unfolding clean_expired_sessions
get-clean_expired_sessions now sid s u =
    ground (arith, get-delete_all sid (expired_sids now s) s, contains-expired_sids now sid s u)
