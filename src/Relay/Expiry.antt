-- ===== src/Relay/Expiry.antt =====
-- What cleanup_expired_mappings removes, role by role and session by session.
use v3xctrl.Base.{
  String, ◌≡◌, refl, ◌∙◌, Bool, true, false, ◌&&◌, ◌||◌, Option, none, some, List, [], ◌∷◌, ◌++◌,
  ◌==◌, arith, string_eq, nat_eq, Bool-cases, inl, inr,
}
use v3xctrl.Base.Dict.{Dict, get, pop, get-pop}
use v3xctrl.Relay.Types.{Address, Role, streamer, viewer, spectator}
use v3xctrl.Relay.Session.{Ports, Session, SpectatorEntry, get_addresses, role_ports}
use v3xctrl.Relay.State.{Relay}
use v3xctrl.Relay.Cleanup.{
  is_empty_session, forget_spectators, remove_empty, cleanup_empty_sessions,
}
use v3xctrl.Relay.Register.{forget_addresses}
use v3xctrl.Relay.Mappings.{remove_spectator_from_mappings}

abbrev same_role : Role → Role → Bool
same_role streamer streamer = true
same_role viewer viewer = true
same_role spectator spectator = true
same_role _ _ = false

-- A dictionary holds each key once.
abbrev pub UniqueKeys : Dict String Session → Type 0
UniqueKeys [] = Unit
UniqueKeys ((k, v) ∷ d) = (get k d ≡ none) × UniqueKeys d

listed : String → Role → List (String × Role) → Bool
listed sid role [] = false
listed sid role ((j, q) ∷ l) = j == sid && same_role q role || listed sid role l

-- the ports of a role of a session, if the session is there
abbrev pub ports_at : Role → String → Dict String Session → Option Ports
ports_at role sid d = elim (get sid d) [ none ↦ none | some s ↦ some (role_ports role s) ]

listed-append :
    (sid : String) (role : Role) (l k : List (String × Role))
    → listed sid role (l ++ k) ≡ (listed sid role l || listed sid role k)
unfolding listed
listed-append sid role [] k = refl
listed-append sid role ((j, q) ∷ l) k = ground (arith, listed-append sid role l k)

-- `roles[role] = {}` as an effect on one role
abbrev emptied : Bool → Option Ports → Option Ports
emptied true (some ports) = some []
emptied b o = o

sessions-forget_addresses :
    (as' : List Address) (r : Relay) → (forget_addresses as' r).sessions ≡ r.sessions
unfolding forget_addresses
sessions-forget_addresses [] r = refl
sessions-forget_addresses (a ∷ as') r = sessions-forget_addresses as' _

sessions-forget_spectators :
    (s : Session) (es : List SpectatorEntry) (r : Relay)
    → (forget_spectators s es r).sessions ≡ r.sessions
unfolding forget_spectators remove_spectator_from_mappings
sessions-forget_spectators s [] r = refl
sessions-forget_spectators s (e ∷ es) r =
    sessions-forget_spectators s es _ ∙ sessions-forget_addresses (get_addresses e) r

empty_at : String → Dict String Session → Bool
empty_at sid d = elim (get sid d) [ none ↦ false | some s ↦ is_empty_session s ]

-- A session that is not listed with both roles empty is left alone.
get-remove_empty :
    (sid : String) (d : Dict String Session) (r : Relay) (s : Session)
    → get sid (remove_empty d r).sessions ≡ some s
    → get sid r.sessions ≡ some s
unfolding remove_empty
get-remove_empty sid [] r s h = h
get-remove_empty sid ((j, t) ∷ d) r s h = elim (Bool-cases (is_empty_session t)) [
  | inl e ↦
      let r' = forget_spectators t t.spectators r in
      let ih =
        get-remove_empty sid d (record r' { sessions = pop j r'.sessions }) s
          (rw (e, remove_empty) at h) in
      ground (arith, ih, get-pop j sid r'.sessions, sessions-forget_spectators t t.spectators r)
  | inr e ↦ get-remove_empty sid d r s (rw (e, remove_empty) at h)
]

remove_empty-gone :
    (sid : String) (d : Dict String Session) (r : Relay) (s t : Session)
    → get sid d ≡ some s
    → is_empty_session s ≡ true
    → get sid (remove_empty d r).sessions ≡ some t
    → ⊥
unfolding remove_empty get
remove_empty-gone sid [] r s t h e g = cc
remove_empty-gone sid ((j, u) ∷ d) r s t h e g = elim (Bool-cases (j == sid)) [
  | inl k ↦
      let r' = forget_spectators u u.spectators r in
      let r'' = record r' { sessions = pop j r'.sessions } in
      ground
        (arith, get-remove_empty sid d r'' t, get-pop j sid r'.sessions, string_eq.same_iff j sid)
  | inr k ↦
      let r' = forget_spectators u u.spectators r in
      let r'' = record r' { sessions = pop j r'.sessions } in
      ground (arith, remove_empty-gone sid d r'' s t, remove_empty-gone sid d r s t)
]

-- After _cleanup_empty_sessions every session that is left has a port in one of its roles, and
-- is what it was before.
pub cleanup_empty_sessions-is_occupied :
    (r : Relay) (sid : String) (s : Session)
    → get sid (cleanup_empty_sessions r).sessions ≡ some s
    → (is_empty_session s ≡ false) × (get sid r.sessions ≡ some s)
unfolding cleanup_empty_sessions
cleanup_empty_sessions-is_occupied r sid s h =
    let before = get-remove_empty sid r.sessions r s h in
    (
      elim (Bool-cases (is_empty_session s)) [
        | inl e ↦ absurd (remove_empty-gone sid r.sessions r s s before e h)
        | inr e ↦ e
      ],
      before,
    )
