-- ===== src/Punch/Rendezvous/Matching.antt =====
-- The rendezvous server against a board that only knows who announced what last.
use mathlib.Core.Path.{fun_ext}
use v3xctrl.Base.{
  ℕ, ◌≡◌, refl, String, Bool, true, ◌&&◌, Option, none, some, [], ◌∷◌, is_some, ◌==◌, string_eq,
  if◌then◌else◌, arith, Option-cases, inl, inr, all,
}
use v3xctrl.Base.Dict.{get, put, pop, get-put, get-pop}
use v3xctrl.Relay.Types.{Address}
use v3xctrl.Punch.Rendezvous.{
  Entry, Session, Sessions, Sent, or_empty, set_entry, entry_of, has_ports, is_matched,
  peer_info_for, match_messages, send_each, send_match, is_announceable, handle_peer_announcement,
  Received, malformed, unsupported, announced, receive,
}

-- The last entry for an identifier, a role and a port type.
abbrev pub Board : Type 0
Board = String → String → String → Option Entry

unfoldable pub lookup : Sessions → Board
lookup sessions id role port_type = elim (get id sessions) [
  | none ↦ none
  | some session ↦ entry_of session role port_type
]

-- The four messages, once all four entries are there.
pub pairing : Option Entry → Option Entry → Option Entry → Option Entry → Option Sent
pairing (some cv) (some cc') (some sv) (some sc) = some (
    (cv.addr, peer_info_for sv sc)
    ∷ (sv.addr, peer_info_for cv cc')
    ∷ (cc'.addr, peer_info_for sv sc)
    ∷ (sc.addr, peer_info_for cv cc')
    ∷ [])
pairing _ _ _ _ = none

pub pair_of : String → Board → Option Sent
unfolding pairing
pair_of id b =
    pairing (b id "client" "video") (b id "client" "control") (b id "server" "video")
      (b id "server" "control")

pub post : String → String → String → Entry → Board → Board
post id role port_type entry b =
    λ i r p. if id == i && (role == r && port_type == p) then some entry else b i r p

pub clear : String → Board → Board
clear id b = λ i r p. if id == i then none else b i r p

-- A valid announcement is posted; a complete identifier is told and, if all was sent, cleared.
pub tell : (Address → Bool) → String → Board → Board × Sent
unfolding pair_of clear
tell fails id b = elim (pair_of id b) [
  | none ↦ (b, [])
  | some messages ↦
      let (sent, complete) = send_each fails messages in (if complete then clear id b else b, sent)
]

pub receive_board : (Address → Bool) → ℕ → Received → Board → Board × Sent
unfolding tell post
receive_board fails now (announced msg addr) b =
    if is_announceable msg
    then tell fails msg.id (post msg.id msg.role msg.port_type (record { addr = addr; ts = now }) b)
    else (b, [])
receive_board fails now _ b = (b, [])

entry_of-set_entry :
    (role pt : String) (e : Entry) (s : Session) (r p : String)
    → entry_of (set_entry role pt e s) r p
      ≡ (if role == r && pt == p then some e else entry_of s r p)
unfolding entry_of set_entry or_empty get
entry_of-set_entry role pt e s r p = elim (Option-cases (get role s)) [
  | inl h ↦
      ground (arith, get-put role r (put pt e []) s, get-put pt p e [], string_eq.same_iff role r)
  | inr (d, h) ↦
      ground (arith, get-put role r (put pt e d) s, get-put pt p e d, string_eq.same_iff role r)
]

entry_of-or_empty :
    (id : String) (s : Sessions) (r p : String)
    → entry_of (or_empty (get id s)) r p ≡ lookup s id r p
unfolding entry_of or_empty get lookup
entry_of-or_empty id s r p = ground arith

lookup-put :
    (id : String) (ses : Session) (s : Sessions) (i r p : String)
    → lookup (put id ses s) i r p ≡ (if id == i then entry_of ses r p else lookup s i r p)
unfolding lookup
lookup-put id ses s i r p = ground (arith, get-put id i ses s)

lookup-pop :
    (id : String) (s : Sessions) (i r p : String)
    → lookup (pop id s) i r p ≡ (if id == i then none else lookup s i r p)
unfolding lookup
lookup-pop id s i r p = ground (arith, get-pop id i s)

match_messages-pairing :
    (s : Session)
    → match_messages s
      ≡ pairing
          (entry_of s "client" "video")
          (entry_of s "client" "control")
          (entry_of s "server" "video")
          (entry_of s "server" "control")
unfolding match_messages pairing
match_messages-pairing s = ground arith

has_ports_lem :
    (s : Session) (r : String)
    → has_ports s r ≡ (is_some (entry_of s r "video") && is_some (entry_of s r "control"))
unfolding has_ports entry_of all
has_ports_lem s r = ground arith

is_matched-pairing :
    (s : Session)
    → is_matched s
      ≡ is_some (
          pairing
            (entry_of s "client" "video")
            (entry_of s "client" "control")
            (entry_of s "server" "video")
            (entry_of s "server" "control"))
unfolding is_matched pairing all
is_matched-pairing s = ground (arith, has_ports_lem s "client", has_ports_lem s "server")

lookup-set_entry :
    (id role pt : String) (e : Entry) (s : Sessions)
    → lookup (put id (set_entry role pt e (or_empty (get id s))) s) ≡ post id role pt e (lookup s)
unfolding post
lookup-set_entry id role pt e s = fun_ext λ i. fun_ext λ r. fun_ext λ p. ground (
  arith,
  lookup-put id (set_entry role pt e (or_empty (get id s))) s i r p,
  entry_of-set_entry role pt e (or_empty (get id s)) r p,
  entry_of-or_empty id s r p,
  string_eq.same_iff id i,
)

lookup-pop-clear : (id : String) (s : Sessions) → lookup (pop id s) ≡ clear id (lookup s)
unfolding clear
lookup-pop-clear id s = fun_ext λ i. fun_ext λ r. fun_ext λ p. lookup-pop id s i r p

entry_of-put :
    (id : String) (ses : Session) (s : Sessions) (r p : String)
    → lookup (put id ses s) id r p ≡ entry_of ses r p
entry_of-put id ses s r p = ground (arith, lookup-put id ses s id r p, string_eq.same_iff id id)

pair_of-put :
    (id : String) (ses : Session) (s : Sessions)
    → pair_of id (lookup (put id ses s)) ≡ match_messages ses
unfolding pair_of
pair_of-put id ses s = simp (entry_of-put id ses s, match_messages-pairing ses)

is_matched-some : (s : Session) → is_matched s ≡ is_some (match_messages s)
is_matched-some s = rw (is_matched-pairing s, match_messages-pairing s) refl

-- What the server does with a stored session, against what the board does with its entries.
tell-put :
    (fails : Address → Bool) (id : String) (ses : Session) (s : Sessions)
    → (let (s', sent, _) =
          if is_matched ses
          then send_match fails id ses (put id ses s)
          else (put id ses s, [], true) in
        (lookup s', sent))
      ≡ tell fails id (lookup (put id ses s))
unfolding tell send_match
tell-put fails id ses s =
    ground (arith, is_matched-some ses, pair_of-put id ses s, lookup-pop-clear id (put id ses s))

pub receive-board :
    (fails : Address → Bool) (now : ℕ) (x : Received) (s : Sessions)
    → (lookup (receive fails now x s).0, (receive fails now x s).1)
      ≡ receive_board fails now x (lookup s)
unfolding receive receive_board handle_peer_announcement
receive-board fails now malformed s = refl
receive-board fails now unsupported s = refl
receive-board fails now (announced msg addr) s =
    let e : Entry = record { addr = addr; ts = now } in
    let ses = set_entry msg.role msg.port_type e (or_empty (get msg.id s)) in
    ground (arith, tell-put fails msg.id ses s, lookup-set_entry msg.id msg.role msg.port_type e s)
