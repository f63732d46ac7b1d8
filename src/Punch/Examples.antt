-- ===== src/Punch/Examples.antt =====
-- The rendezvous, the handshake and the registration at concrete inputs.
use v3xctrl.Base.{
  ℕ, ◌≡◌, refl, String, false, none, some, List, [], ◌∷◌, map, string_eq, all, if◌then◌else◌,
}
use v3xctrl.Base.Dict.{get, put, pop}
use v3xctrl.Base.Sets.{contains}
use v3xctrl.Base.Bytes.{Bytes, starts_with}
use v3xctrl.Control.Message.{syn, ack}
use v3xctrl.Relay.Types.{Address}
use v3xctrl.Punch.Rendezvous.{PeerInfo, Received, announced, Sessions}
use v3xctrl.Punch.Rendezvous.Runs.{Round as Step, read, cleaned, round, run}
use v3xctrl.Punch.PunchPeer.{Event, unsent, silence, received, handshake_loop, returned}
use v3xctrl.Punch.PunchPeer.Handshake.{first_answer, handshake_loop-first_answer}
use v3xctrl.Punch.Registration.{Parsed, info, value_error, Round, register_with_relay, peer_info}
use v3xctrl.Punch.Registration.Noise.{quiet, register_with_relay-quiet}

abbrev at_port : ℕ → Address
at_port p = record { host = "10.0.0.2"; port = p }

abbrev says : String → String → ℕ → Received
says role port_type port =
    announced (record { role = role; id = "s"; port_type = port_type }) (at_port port)

abbrev reads : ℕ → Received → Step
reads now x = read (λ a. false) now x

-- The first announcement is cleaned away, and comes again.
abbrev five : List Step
five =
    reads 1 (says "client" "video" 5)
    ∷ cleaned 12
    ∷ reads 13 (says "client" "video" 1)
    ∷ reads 14 (says "server" "control" 2)
    ∷ reads 15 (says "client" "control" 3)
    ∷ cleaned 20
    ∷ reads 21 (says "server" "video" 4)
    ∷ []

abbrev no_sessions : Sessions
no_sessions = []

abbrev told : ℕ → ℕ → PeerInfo
told v c = record { ip = "10.0.0.2"; video_port = v; control_port = c }

-- The last announcement tells all four.
matched_messages :
    (run five no_sessions).1
    ≡ (at_port 1, told 4 2)
      ∷ (at_port 4, told 1 3)
      ∷ (at_port 3, told 4 2)
      ∷ (at_port 2, told 1 3)
      ∷ []
unfolding run round get put pop contains all
matched_messages = refl

abbrev rounds : List (ℕ × Event)
rounds =
    (0, unsent) ∷ (1, silence) ∷ (2, received syn (at_port 7)) ∷ (3, received ack (at_port 7)) ∷ []

handshake_loop-first_answer_example :
    handshake_loop 15 0 (at_port 7) false rounds ≡ first_answer 15 (at_port 7) rounds
handshake_loop-first_answer_example = handshake_loop-first_answer 15 0 (at_port 7) rounds

handshake_returns : (handshake_loop 15 0 (at_port 7) false rounds).1 ≡ returned (at_port 7)
unfolding handshake_loop
handshake_returns = refl

abbrev parse : Bytes → Parsed
parse datagram =
    if starts_with (0x83 ∷ 0xa1 ∷ 0x74 ∷ 1 ∷ []) datagram then info (told 4 2) else value_error

abbrev busy : List Round
busy =
    record {
      aborted = false;
      now = 5;
      waiting = some (0x80 ∷ 0x60 ∷ []) ∷ none ∷ [];
      send_raises = false;
      reply = some (0x80 ∷ []);
    }
    ∷ record {
      aborted = false;
      now = 5;
      waiting = [];
      send_raises = false;
      reply = some (0x83 ∷ 0xa1 ∷ 0x74 ∷ 1 ∷ []);
    }
    ∷ []

register_with_relay-quiet_example :
    register_with_relay parse 0 (map quiet busy) ≡ register_with_relay parse 0 busy
register_with_relay-quiet_example = register_with_relay-quiet parse 0 busy

registered : register_with_relay parse 0 busy ≡ peer_info (told 4 2)
unfolding register_with_relay starts_with
registered = refl
