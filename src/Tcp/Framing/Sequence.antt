-- ===== src/Tcp/Framing/Sequence.antt =====
-- A sequence of messages over one connection.
use v3xctrl.Base.{◌≤◌, ◌≡◌, refl, sym, ◌∙◌, ap, some, List, [], ◌∷◌, ◌++◌, arith, length, map}
use mathlib.Core.List.{append_assoc, append-nil}
use v3xctrl.Base.Bytes.{Bytes}
use v3xctrl.Tcp.Framing.{Segments, written, recv_message, send_message, max_payload_size}
use v3xctrl.Tcp.Framing.RoundTrip.{
  AreFilled, stream, frame, frames, send_messages, recv_messages, recv_message-frame,
}

-- Every message fits the two bytes of the length.
abbrev pub AreSendable : List Bytes → Type 0
AreSendable [] = Unit
AreSendable (m ∷ ms) = (length m ≤ max_payload_size) × AreSendable ms

send_message-frame :
    (out m : Bytes) → length m ≤ max_payload_size → (send_message written out m).0 ≡ out ++ frame m
unfolding send_message
send_message-frame out m h = ground arith

pub send_messages-frames :
    (ms : List Bytes) (out : Bytes) → AreSendable ms → send_messages out ms ≡ out ++ frames ms
unfolding send_messages
send_messages-frames [] out h = sym (append-nil out)
send_messages-frames (m ∷ ms) out h =
    send_messages-frames ms (send_message written out m).0 h.1
    ∙ ap (λ t. t ++ frames ms) (send_message-frame out m h.0)
    ∙ append_assoc out (frame m) (frames ms)

recv_messages-frames :
    (ms : List Bytes) (segs : Segments) (rest : Bytes)
    → AreFilled segs
    → stream segs ≡ frames ms ++ rest
    → recv_messages ms segs ≡ map some ms
unfolding recv_messages
recv_messages-frames [] segs rest f h = refl
recv_messages-frames (m ∷ ms) segs rest f h =
    let first =
      recv_message-frame m (frames ms ++ rest) segs f
        (h ∙ append_assoc (frame m) (frames ms) rest) in
    let others = recv_messages-frames ms (recv_message segs).1 rest first.2 first.1 in
    rw first.0 (ap (λ t. some m ∷ t) others)

-- Messages of at most 65535 bytes that are sent over a connection whose writes succeed are received
-- in order and whole, for every way to cut the stream into non-empty segments, empty messages included.
pub recv-send_messages :
    (ms : List Bytes) (segs : Segments) (rest : Bytes)
    → AreSendable ms
    → AreFilled segs
    → stream segs ≡ send_messages [] ms ++ rest
    → recv_messages ms segs ≡ map some ms
recv-send_messages ms segs rest s f h =
    recv_messages-frames ms segs rest f (h ∙ ap (λ t. t ++ rest) (send_messages-frames ms [] s))
