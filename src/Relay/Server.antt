-- ===== src/Relay/Server.antt =====
-- RelayServer.py: what becomes of one datagram. `wire` is Message.from_bytes, whose msgpack is another
-- library's; `none` is its exception. A task that is submitted runs before the next datagram is read.
use v3xctrl.Base.{
  ℕ, String, Bool, false, not, ◌||◌, Option, none, some, List, [], ◌∷◌, ◌==◌, nat_eq, map, is_some,
  if◌then◌else◌,
}
use v3xctrl.Base.Bytes.{Bytes, starts_with}
use v3xctrl.Relay.Types.{Address}
use v3xctrl.Relay.State.{Relay, Env, TcpTarget, framed, payload, test_ack, log_sent, udp_send}
use v3xctrl.Relay.Register.{PeerAnnouncement, register_peer, update_spectator_heartbeat}
use v3xctrl.Relay.Forward.{Forwarded, unmapped, deferred, raised, forward_packet}

pub data Content : Type 0 where
  announcement : PeerAnnouncement → Content
  connection_test : String → Bool → Content
  other_message : Content

abbrev pub Wire : Type 0
Wire = Bytes → Option Content

-- b"\x83\xa1t\xb0PeerAnnouncement" and b"\x83\xa1t\xaeConnectionTest"
abbrev pub peer_announcement_prefix : Bytes
peer_announcement_prefix =
    0x83 ∷ 0xa1 ∷ 0x74 ∷ 0xb0 ∷ 0x50 ∷ 0x65 ∷ 0x65 ∷ 0x72 ∷ 0x41 ∷ 0x6e ∷ 0x6e ∷ 0x6f ∷ 0x75 ∷ 0x6e
    ∷ 0x63 ∷ 0x65 ∷ 0x6d ∷ 0x65 ∷ 0x6e ∷ 0x74 ∷ []

abbrev pub connection_test_prefix : Bytes
connection_test_prefix =
    0x83 ∷ 0xa1 ∷ 0x74 ∷ 0xae ∷ 0x43 ∷ 0x6f ∷ 0x6e ∷ 0x6e ∷ 0x65 ∷ 0x63 ∷ 0x74 ∷ 0x69 ∷ 0x6f ∷ 0x6e
    ∷ 0x54 ∷ 0x65 ∷ 0x73 ∷ 0x74 ∷ []

unfoldable pub is_control : Bytes → Bool
is_control d = starts_with peer_announcement_prefix d || starts_with connection_test_prefix d

-- The target objects with this socket get `_alive = False`.
unfoldable pub mark_dead : ℕ → Relay → Relay
mark_dead sock r = record r {
  tcp_targets =
      map (λ p. (p.0, if p.1.sock == sock then record p.1 { alive = false } else p.1))
        r.tcp_targets;
}

-- TcpTarget.send of a deferred target
unfoldable pub send_deferred : Env → Bytes → TcpTarget → Relay → Relay
unfolding mark_dead log_sent
send_deferred env bytes t r =
    if not t.alive
    then r
    else if env.write_ok t.sock
    then log_sent (framed t.sock (payload bytes)) r
    else mark_dead t.sock r

unfoldable pub send_all_deferred : Env → Bytes → List TcpTarget → Relay → Relay
unfolding send_deferred
send_all_deferred env bytes [] r = r
send_all_deferred env bytes (t ∷ ts) r =
    send_all_deferred env bytes ts (send_deferred env bytes t r)

-- `self.relay.store.…`
unfoldable pub is_valid_id : Env → String → Bool → Bool
is_valid_id env id is_spectator =
    if is_spectator then is_some (env.session_of_spectator id) else env.exists id

-- _handle_connection_test, from the message on; an OSError of `sendto` is logged.
unfoldable pub answer_test : Env → Option Content → Address → Relay → Relay
unfolding is_valid_id udp_send
answer_test env (some (connection_test id is_spectator)) addr r =
    udp_send env addr (test_ack (is_valid_id env id is_spectator)) r
answer_test env (some (announcement msg)) addr r = r
answer_test env (some other_message) addr r = r
answer_test env none addr r = r

unfoldable pub handle_connection_test : Env → Wire → Bytes → Address → Relay → Relay
unfolding answer_test
handle_connection_test env wire d addr r = answer_test env (wire d) addr r

-- the two prefix tests from the second on
unfoldable pub handle_not_announcement : Env → Wire → Bytes → Address → Relay → Relay
unfolding handle_connection_test
handle_not_announcement env wire d addr r =
    if starts_with connection_test_prefix d
    then handle_connection_test env wire d addr r
    else update_spectator_heartbeat env addr r

unfoldable pub handle_announcement : Env → Wire → Option Content → Bytes → Address → Relay → Relay
unfolding handle_not_announcement
handle_announcement env wire (some (announcement msg)) d addr r = register_peer env msg addr r
handle_announcement env wire (some (connection_test id is_spectator)) d addr r =
    handle_not_announcement env wire d addr r
handle_announcement env wire (some other_message) d addr r =
    handle_not_announcement env wire d addr r
handle_announcement env wire none d addr r = r

-- _handle_slow_packet
unfoldable pub handle_slow_packet : Env → Wire → Bytes → Address → Relay → Relay
unfolding handle_announcement
handle_slow_packet env wire d addr r =
    if starts_with peer_announcement_prefix d
    then handle_announcement env wire (wire d) d addr r
    else handle_not_announcement env wire d addr r

-- what `run` does with the answer of forward_packet; an OSError is logged
unfoldable pub finish_forward : Env → Wire → Bytes → Address → Relay × Forwarded → Relay
unfolding send_all_deferred handle_slow_packet
finish_forward env wire d addr (r, unmapped) = handle_slow_packet env wire d addr r
finish_forward env wire d addr (r, deferred ts) = send_all_deferred env d ts r
finish_forward env wire d addr (r, raised) = r

-- one round of `run`
unfoldable pub handle_datagram : Env → Wire → Bytes → Address → Relay → Relay
unfolding is_control finish_forward handle_slow_packet
handle_datagram env wire d addr r =
    if is_control d
    then handle_slow_packet env wire d addr r
    else finish_forward env wire d addr (forward_packet env d addr r)
