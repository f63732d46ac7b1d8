-- ===== src/Punch/PunchPeer.antt =====
-- PunchPeer.py: the registration at the rendezvous server, the handshake of one socket with the peer
-- as a loop over what is received, and the two together. Each round has the time at the loop's test
-- and what its recvfrom brings.
pub mod Handshake
use v3xctrl.Base.{
  ℕ, ◌+◌, Bool, true, false, ◌||◌, Option, none, some, List, [], ◌∷◌, ◌++◌, ltb, if◌then◌else◌,
}
use v3xctrl.Control.Message.{Body, syn, syn_ack, ack}
use v3xctrl.Relay.Types.{Address}
use v3xctrl.Punch.Rendezvous.{PeerInfo}

pub data Reply : Type 0 where
  timed_out failed : Reply
  -- a message other than a PeerInfo, and a PeerInfo
  other : Reply
  informed : PeerInfo → Reply

-- register_with_rendezvous: how many announcements are given to sendto, and the answer; None is an
-- error or the end of the time.
unfoldable pub register_with_rendezvous : ℕ → ℕ → List (ℕ × Reply) → ℕ × Option PeerInfo
register_with_rendezvous register_timeout start [] = (0, none)
register_with_rendezvous register_timeout start ((now, reply) ∷ rounds) =
    let (later, info) = register_with_rendezvous register_timeout start rounds in
    if ltb now (start + register_timeout)
    then (elim reply [
      | informed peer ↦ (1, some peer)
      | failed ↦ (1, none)
      | _ ↦ (1 + later, info)
    ])
    else (0, none)

pub data Event : Type 0 where
  -- the exception of the Syn's sendto; socket.timeout; any other exception, of recvfrom, of the
  -- parsing or of the reply's sendto
  unsent silence faulty : Event
  received : Body → Address → Event

pub data Outcome : Type 0 where
  -- the rounds given are over
  waiting : Outcome
  returned : Address → Outcome
  ack_timeout : Outcome

abbrev pub Trace : Type 0
Trace = List (Body × Address) × Outcome

-- The messages sent in front of a trace.
unfoldable pub sending : List (Body × Address) → Trace → Trace
sending sent (later, outcome) = (sent ++ later, outcome)

-- The reply to a message, with the flag received_synack, which goes with sent_ack, and whether the
-- call returns the source at once.
unfoldable pub answer : Body → Address → Bool → List (Body × Address) × Bool × Bool
answer syn source synacked = ((syn_ack, source) ∷ [], synacked, false)
answer syn_ack source synacked = ((ack, source) ∷ [], true, false)
answer ack source synacked = ([], synacked, true)
answer _ source synacked = ([], synacked, false)

-- `if not received_synack: sock.sendto(Syn...)`
unfoldable pub call_out : Address → Bool → List (Body × Address)
call_out addr synacked = if synacked then [] else (syn, addr) ∷ []

-- The loop of _handshake, which starts with synacked = false
unfoldable pub handshake_loop : ℕ → ℕ → Address → Bool → List (ℕ × Event) → Trace
unfolding sending answer call_out
handshake_loop timeout start addr synacked [] = ([], waiting)
handshake_loop timeout start addr synacked ((now, unsent) ∷ rounds) =
    let rest = handshake_loop timeout start addr synacked rounds in
    if ltb now (start + timeout) then rest else ([], ack_timeout)
handshake_loop timeout start addr synacked ((now, silence) ∷ rounds) =
    let rest = handshake_loop timeout start addr synacked rounds in
    if ltb now (start + timeout) then sending (call_out addr synacked) rest else ([], ack_timeout)
handshake_loop timeout start addr synacked ((now, faulty) ∷ rounds) =
    let rest = handshake_loop timeout start addr synacked rounds in
    if ltb now (start + timeout) then sending (call_out addr synacked) rest else ([], ack_timeout)
handshake_loop timeout start addr synacked ((now, received body source) ∷ rounds) =
    let (replies, synacked', acked) = answer body source synacked in
    let rest = handshake_loop timeout start addr synacked' rounds in
    if ltb now (start + timeout)
    then (sending (call_out addr synacked)
        (sending replies (if acked || synacked' then ([], returned source) else rest)))
    else ([], ack_timeout)

pub data Punched : Type 0 where
  addresses : Address → Address → Punched
  -- the RuntimeError of a registration that failed
  incomplete : Punched
  -- the KeyError of `results[...]`: the thread of a handshake ended by its AckTimeoutError
  key_error : Punched

-- What rendezvous_and_punch returns from the answers of the two registrations and the two handshakes,
-- which go to the ports of the video socket's PeerInfo.
unfoldable pub rendezvous_and_punch :
    Option PeerInfo → Option PeerInfo → (Address → Outcome) → (Address → Outcome) → Punched
rendezvous_and_punch (some video) (some control) handshake_video handshake_control =
    elim (handshake_video (record { host = video.ip; port = video.video_port })) [
      | returned video_addr ↦
          elim (handshake_control (record { host = video.ip; port = video.control_port })) [
            | returned control_addr ↦ addresses video_addr control_addr
            | _ ↦ key_error
          ]
      | _ ↦ key_error
    ]
rendezvous_and_punch _ _ handshake_video handshake_control = incomplete
