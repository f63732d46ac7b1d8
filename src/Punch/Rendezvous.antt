-- ===== src/Punch/Rendezvous.antt =====
-- rendezvouz.py: the sessions of the rendezvous server, what it does with one announcement, and the
-- removal of expired sessions. An entry holds the address and the time of an announcement.
pub mod Matching
pub mod Expiry
pub mod Entries
pub mod Runs
use v3xctrl.Base.{
  ℕ, ◌+◌, String, Bool, true, false, not, ◌&&◌, Option, none, some, List, [], ◌∷◌, map, ltb, all,
  is_some, if◌then◌else◌, string_eq,
}
use v3xctrl.Base.Dict.{Dict, get, has, put, pop, values}
use v3xctrl.Base.Sets.{contains}
use v3xctrl.Relay.Types.{Address}
use v3xctrl.Relay.Register.{PeerAnnouncement}

abbrev pub timeout : ℕ
timeout = 10

abbrev pub valid_types : List String
valid_types = "video" ∷ "control" ∷ []

abbrev pub roles : List String
roles = "client" ∷ "server" ∷ []

pub record Entry : Type 0 where
  pub addr : Address
  pub ts : ℕ

abbrev pub Session : Type 0
Session = Dict String (Dict String Entry)

abbrev pub Sessions : Type 0
Sessions = Dict String Session

pub record PeerInfo : Type 0 where
  pub ip : String
  pub video_port : ℕ
  pub control_port : ℕ

abbrev pub Sent : Type 0
Sent = List (Address × PeerInfo)

-- d.setdefault(k, {}), as far as its value goes
unfoldable pub or_empty {ℓ} : {V : Type ℓ} → Option (Dict String V) → Dict String V
or_empty none = []
or_empty (some d) = d

-- The session with its entry for the role and the port type.
unfoldable pub set_entry : String → String → Entry → Session → Session
unfolding or_empty
set_entry role port_type entry session =
    put role (put port_type entry (or_empty (get role session))) session

-- session[role][port_type]; `none` is the KeyError.
unfoldable pub entry_of : Session → String → String → Option Entry
entry_of session role port_type = elim (get role session) [
  | none ↦ none
  | some entries ↦ get port_type entries
]

-- `role in session and all(pt in session[role] for pt in valid_types)`
unfoldable pub has_ports : Session → String → Bool
has_ports session role = elim (get role session) [
  | none ↦ false
  | some entries ↦ all (λ pt. has pt entries) valid_types
]

unfoldable pub is_matched : Session → Bool
unfolding has_ports
is_matched session = all (has_ports session) roles

-- The PeerInfo that tells of the other side.
unfoldable pub peer_info_for : Entry → Entry → PeerInfo
peer_info_for video control = record {
  ip = video.addr.host;
  video_port = video.addr.port;
  control_port = control.addr.port;
}

-- What is sent to the two sides, in order; `none` is a KeyError.
unfoldable pub match_messages : Session → Option Sent
unfolding entry_of peer_info_for
match_messages session = elim (entry_of session "client" "video") [
  | none ↦ none
  | some cv ↦ elim (entry_of session "client" "control") [
    | none ↦ none
    | some cc' ↦ elim (entry_of session "server" "video") [
      | none ↦ none
      | some sv ↦ elim (entry_of session "server" "control") [
        | none ↦ none
        | some sc ↦ some (
            (cv.addr, peer_info_for sv sc)
            ∷ (sv.addr, peer_info_for cv cc')
            ∷ (cc'.addr, peer_info_for sv sc)
            ∷ (sc.addr, peer_info_for cv cc')
            ∷ [])
      ]
    ]
  ]
]

-- The datagrams up to the first one whose sendto raises, and whether all were sent.
unfoldable pub send_each : (Address → Bool) → Sent → Sent × Bool
send_each fails [] = ([], true)
send_each fails ((addr, info) ∷ rest) =
    let (sent, complete) = send_each fails rest in
    if fails addr then ([], false) else ((addr, info) ∷ sent, complete)

-- What is left, what was sent, and whether the call returned without an exception.
abbrev pub Handled : Type 0
Handled = Sessions × Sent × Bool

unfoldable pub send_match : (Address → Bool) → String → Session → Sessions → Handled
unfolding match_messages send_each
send_match fails id session sessions = elim (match_messages session) [
  | none ↦ (sessions, [], false)
  | some messages ↦
      let (sent, complete) = send_each fails messages in
      (if complete then pop id sessions else sessions, sent, complete)
]

unfoldable pub is_announceable : PeerAnnouncement → Bool
is_announceable msg = contains msg.role roles && contains msg.port_type valid_types

unfoldable pub handle_peer_announcement :
    (Address → Bool) → ℕ → PeerAnnouncement → Address → Sessions → Handled
unfolding set_entry or_empty is_matched send_match is_announceable
handle_peer_announcement fails now msg addr sessions =
    if is_announceable msg
    then (let session =
          set_entry msg.role msg.port_type (record { addr = addr; ts = now })
            (or_empty (get msg.id sessions)) in
        let stored = put msg.id session sessions in
        if is_matched session then send_match fails msg.id session stored else (stored, [], true))
    else (sessions, [], true)

-- All entries of all roles are older than the timeout.
unfoldable pub is_expired : ℕ → Session → Bool
is_expired now peers =
    all (λ role. all (λ entry. ltb (entry.ts + timeout) now) (values role)) (values peers)

unfoldable pub expired_sids : ℕ → Sessions → List String
expired_sids now [] = []
expired_sids now ((sid, peers) ∷ sessions) =
    let rest = expired_sids now sessions in if is_expired now peers then sid ∷ rest else rest

unfoldable pub delete_all : List String → Sessions → Sessions
delete_all [] sessions = sessions
delete_all (sid ∷ sids) sessions = delete_all sids (pop sid sessions)

-- One round of the cleanup thread.
unfoldable pub clean_expired_sessions : ℕ → Sessions → Sessions
unfolding expired_sids delete_all is_expired
clean_expired_sessions now sessions = delete_all (expired_sids now sessions) sessions

-- What the server reads from its socket.
pub data Received : Type 0 where
  malformed unsupported : Received
  announced : PeerAnnouncement → Address → Received

-- One round of the main loop, which goes on after an exception.
unfoldable pub receive : (Address → Bool) → ℕ → Received → Sessions → Sessions × Sent
unfolding handle_peer_announcement
receive fails now malformed sessions = (sessions, [])
receive fails now unsupported sessions = (sessions, [])
receive fails now (announced msg addr) sessions =
    let (sessions', sent, _) = handle_peer_announcement fails now msg addr sessions in
    (sessions', sent)
