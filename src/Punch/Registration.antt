-- ===== src/Punch/Registration.antt =====
-- v3xctrl_relay/Peer.py: the registration of one socket at the relay, as a loop over what it receives,
-- and what setup makes of the registrations of all ports. Message.from_bytes is an argument.
pub mod Noise
use v3xctrl.Base.{
  ℕ, zero, suc, ◌+◌, String, Bool, true, false, not, Option, none, some, List, [], ◌∷◌, leb, all,
  if◌then◌else◌, string_eq,
}
use v3xctrl.Base.Bytes.{Bytes, starts_with}
use v3xctrl.Base.Dict.{Dict, get, put, values}
use v3xctrl.Relay.Types.{Address}
use v3xctrl.Punch.Rendezvous.{PeerInfo}

-- What Message.from_bytes makes of a datagram; `crashed` is an exception other than ValueError.
pub data Parsed : Type 0 where
  info : PeerInfo → Parsed
  error_response other_message value_error crashed : Parsed

abbrev pub announce_interval : ℕ
announce_interval = 1

-- b"\x83\xa1t"
abbrev pub message_prefix : Bytes
message_prefix = 0x83 ∷ 0xa1 ∷ 0x74 ∷ []

-- `data[:3] == self._MESSAGE_PREFIX`
unfoldable pub is_message : Bytes → Bool
is_message datagram = starts_with message_prefix datagram

pub data Flushed : Type 0 where
  drained : Flushed
  found : PeerInfo → Flushed
  refused broken : Flushed

-- _flush_socket over the datagrams that are waiting; `none` is an OSError of recvfrom.
unfoldable pub flush_socket : (Bytes → Parsed) → List (Option Bytes) → Flushed
unfolding is_message
flush_socket parse [] = drained
flush_socket parse (none ∷ waiting) = drained
flush_socket parse (some datagram ∷ waiting) =
    let rest = flush_socket parse waiting in
    if is_message datagram
    then (elim (parse datagram) [
      | info peer ↦ found peer
      | error_response ↦ refused
      | crashed ↦ broken
      | _ ↦ rest
    ])
    else rest

-- A round of the loop: whether the abort event is set at its test, the time, the datagrams that are
-- waiting, whether sendto raises, and what recvfrom brings (`none`: any exception, or no bytes).
pub record Round : Type 0 where
  pub aborted : Bool
  pub now : ℕ
  pub waiting : List (Option Bytes)
  pub send_raises : Bool
  pub reply : Option Bytes

pub data Result : Type 0 where
  -- the rounds given are over
  running : Result
  peer_info : PeerInfo → Result
  -- UnauthorizedError, InterruptedError, and any other exception
  unauthorized interrupted raised : Result

-- What the announcement of a round ends the call with, if it ends it.
unfoldable pub announce : (Bytes → Parsed) → Round → Option Result
unfolding flush_socket
announce parse round = elim (flush_socket parse round.waiting) [
  | found peer ↦ some (peer_info peer)
  | refused ↦ some unauthorized
  | broken ↦ some raised
  | drained ↦ if round.send_raises then some raised else none
]

-- What the reply of a round ends the call with, if it ends it.
unfoldable pub read_reply : (Bytes → Parsed) → Option Bytes → Option Result
unfolding is_message
read_reply parse none = none
read_reply parse (some datagram) =
    if is_message datagram
    then (elim (parse datagram) [
      | info peer ↦ some (peer_info peer)
      | error_response ↦ some unauthorized
      | _ ↦ none
    ])
    else none

-- _register_with_relay, after an announcement at `last_announce`
unfoldable pub register_with_relay : (Bytes → Parsed) → ℕ → List Round → Result
unfolding announce read_reply
register_with_relay parse last_announce [] = running
register_with_relay parse last_announce (round ∷ rounds) =
    let is_due = leb (last_announce + announce_interval) round.now in
    let rest = register_with_relay parse (if is_due then round.now else last_announce) rounds in
    if round.aborted then interrupted else (elim (if is_due then announce parse round else none) [
      | some result ↦ result
      | none ↦ elim (read_reply parse round.reply) [ some result ↦ result | none ↦ rest ]
    ])

pub data Failure : Type 0 where
  unauthorized_error interrupted_error other_error : Failure

unfoldable pub is_interrupted : Failure → Bool
is_interrupted interrupted_error = true
is_interrupted _ = false

pub data Registered : Type 0 where
  complete : Dict String PeerInfo → Registered
  registration_aborted : Registered
  registration_error : Dict String Failure → Dict String PeerInfo → Registered

-- The results and the exceptions of the futures, in the order in which they complete.
unfoldable pub collect :
    List (String × Result)
    → Dict String PeerInfo
    → Dict String Failure
    → Dict String PeerInfo × Dict String Failure
collect [] results exceptions = (results, exceptions)
collect ((port_type, peer_info peer) ∷ futures) results exceptions =
    collect futures (put port_type peer results) exceptions
collect ((port_type, unauthorized) ∷ futures) results exceptions =
    collect futures results (put port_type unauthorized_error exceptions)
collect ((port_type, interrupted) ∷ futures) results exceptions =
    collect futures results (put port_type interrupted_error exceptions)
collect ((port_type, _) ∷ futures) results exceptions =
    collect futures results (put port_type other_error exceptions)

unfoldable pub register_all : List (String × Result) → Registered
unfolding collect is_interrupted
register_all futures =
    let (results, exceptions) = collect futures [] [] in
    elim exceptions [
      | [] ↦ complete results
      | e ∷ es ↦
          if all is_interrupted (values (e ∷ es))
          then registration_aborted
          else registration_error (e ∷ es) results
    ]

pub record PeerAddresses : Type 0 where
  pub video : Address
  pub control : Address

-- The end of setup, on the map that _register_all returns; `none` is a KeyError.
unfoldable pub peer_addresses : Dict String PeerInfo → Option PeerAddresses
peer_addresses peer_info_map = elim (get "video" peer_info_map) [
  | none ↦ none
  | some video ↦ elim (get "control" peer_info_map) [
    | none ↦ none
    | some control ↦ some (record {
      video = record { host = video.ip; port = video.video_port };
      control = record { host = control.ip; port = control.control_port };
    })
  ]
]
