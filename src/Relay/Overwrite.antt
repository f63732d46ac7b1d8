-- ===== src/Relay/Overwrite.antt =====
-- Which sessions _update_mappings deletes: those that hold an address of the session that got ready.
use v3xctrl.Base.{
  String, Bool, ◌≡◌, refl, ◌∙◌, true, false, not, ◌&&◌, Option, none, some, ◌⊎◌, inl, inr,
  Bool-cases, Option-cases, List, [], ◌∷◌, ◌==◌, arith, keep_if, if◌then◌else◌, string_eq, beq_refl,
}
use v3xctrl.Base.Dict.{Dict, get, pop, get-pop}
use v3xctrl.Base.Sets.{contains, union, contains-union}
use v3xctrl.Relay.Types.{Address, address_eq}
use v3xctrl.Relay.Session.{Session}
use v3xctrl.Relay.State.{Relay, Env}
use v3xctrl.Relay.Mappings.{
  sids_for_address, overwritten_sids, delete_overwritten, has_all_ports, update_mappings,
}

-- A session that holds the address is among those found for it.
sids_for_address-holds :
    (a : Address) (sid : String) (sessions : Dict String Session) (t : Session)
    → get sid sessions ≡ some t
    → contains a t.addresses ≡ true
    → contains sid (sids_for_address a sessions) ≡ true
unfolding sids_for_address get contains keep_if
sids_for_address-holds a sid [] t h m = ground arith
sids_for_address-holds a sid ((j, u) ∷ sessions) t h m =
    ground (arith, sids_for_address-holds a sid sessions t, beq_refl sid, string_eq.same_iff j sid)

overwritten_sids-acc :
    (as' : List Address) (sid : String) (sessions : Dict String Session) (acc : List String)
    → contains sid acc ≡ true
    → contains sid (overwritten_sids as' sessions acc) ≡ true
unfolding overwritten_sids
overwritten_sids-acc [] sid sessions acc h = h
overwritten_sids-acc (a ∷ as') sid sessions acc h =
    overwritten_sids-acc as' sid sessions (union acc (sids_for_address a sessions))
      (ground (arith, contains-union sid acc (sids_for_address a sessions)))

overwritten_sids-holds :
    (as' : List Address) (a : Address) (sid : String) (sessions : Dict String Session)
    (acc : List String) (t : Session)
    → get sid sessions ≡ some t
    → contains a as' ≡ true
    → contains a t.addresses ≡ true
    → contains sid (overwritten_sids as' sessions acc) ≡ true
unfolding overwritten_sids contains
overwritten_sids-holds [] a sid sessions acc t h m k = ground arith
overwritten_sids-holds (x ∷ as') a sid sessions acc t h m k =
    let found = union acc (sids_for_address x sessions) in
    ground (
      arith,
      address_eq.same_iff x a,
      contains-union sid acc (sids_for_address x sessions),
      sids_for_address-holds a sid sessions t,
      overwritten_sids-acc as' sid sessions found,
      overwritten_sids-holds as' a sid sessions found t,
    )

get-delete_overwritten :
    (own : String) (sids : List String) (sid : String) (sessions : Dict String Session)
    → get sid (delete_overwritten own sids sessions)
      ≡ (if not (sid == own) && contains sid sids then none else get sid sessions)
unfolding delete_overwritten contains
get-delete_overwritten own [] sid sessions = ground arith
get-delete_overwritten own (x ∷ sids) sid sessions = ground (
  arith,
  string_eq.same_iff x own,
  string_eq.same_iff x sid,
  string_eq.same_iff sid own,
  get-pop x sid sessions,
  get-delete_overwritten own sids sid sessions,
  get-delete_overwritten own sids sid (pop x sessions),
)

-- Whether a session that may be there holds the address.
abbrev pub holds_address : Address → Option Session → Bool
holds_address a none = false
holds_address a (some t) = contains a t.addresses

abbrev pub AreFull : Session → Type 0
AreFull s = (has_all_ports s.streamer_ports ≡ true) × (has_all_ports s.viewer_ports ≡ true)

module _ (env : Env) (r : Relay) (s : Session) (full : AreFull s) where
  sessions-update_mappings :
      (update_mappings env s r).sessions
      ≡ delete_overwritten s.id (overwritten_sids s.addresses r.sessions []) r.sessions
  unfolding update_mappings
  sessions-update_mappings = rw (full.0, full.1) refl

  -- After _update_mappings for a session with all four ports: its own entry in the sessions is what
  -- it was, every other entry is what it was or gone, and no session with another identifier holds any
  -- of its addresses.
  pub update_mappings-exclusive :
      (sid : String) (a : Address)
      → (get s.id (update_mappings env s r).sessions ≡ get s.id r.sessions)
        × ((get sid (update_mappings env s r).sessions ≡ get sid r.sessions)
            ⊎ (get sid (update_mappings env s r).sessions ≡ none))
        × (not (sid == s.id)
              && contains a s.addresses
              && holds_address a (get sid (update_mappings env s r).sessions)
            ≡ false)
  update_mappings-exclusive sid a =
      let found = overwritten_sids s.addresses r.sessions [] in
      rw sessions-update_mappings (
        ground (arith, beq_refl s.id, get-delete_overwritten s.id found s.id r.sessions),
        elim (Bool-cases (not (sid == s.id) && contains sid found)) [
          | inl e ↦ inr (get-delete_overwritten s.id found sid r.sessions ∙ rw e refl)
          | inr e ↦ inl (get-delete_overwritten s.id found sid r.sessions ∙ rw e refl)
        ],
        elim (Option-cases (get sid r.sessions)) [
          | inl e ↦ ground (arith, get-delete_overwritten s.id found sid r.sessions)
          | inr (t, e) ↦ ground (
            arith,
            get-delete_overwritten s.id found sid r.sessions,
            overwritten_sids-holds s.addresses a sid r.sessions [] t,
          )
        ],
      )
