-- ===== src/Tcp/Examples.antt =====
-- Two messages over a connection that brings them in three segments.
use v3xctrl.Base.{◌≡◌, refl, false, some, List, [], ◌∷◌, arith, map}
use v3xctrl.Base.Bytes.{Bytes, pack_u16}
use v3xctrl.Tcp.Framing.{Segments, Write, written, broken, send_message, send_all}
use v3xctrl.Tcp.Tunnel.{inbound_loop, outbound_loop}
use v3xctrl.Tcp.Tunnel.Prefix.{whole_frames, inbound-outbound_loop}
use v3xctrl.Tcp.Framing.RoundTrip.{recv_messages, send_messages}
use v3xctrl.Tcp.Framing.Sequence.{recv-send_messages}

abbrev messages : List Bytes
messages = (7 ∷ 8 ∷ []) ∷ [] ∷ []

abbrev segments : Segments
segments = (0 ∷ []) ∷ (2 ∷ 7 ∷ []) ∷ (8 ∷ 0 ∷ 0 ∷ []) ∷ []

recv-send_messages_example : recv_messages messages segments ≡ map some messages
unfolding send_messages send_message send_all pack_u16
recv-send_messages_example =
    recv-send_messages messages segments [] (omega arith) (omega arith) refl

-- A tunnel whose third write breaks within the frame.
abbrev items : List (Bytes × Write)
items = (7 ∷ 8 ∷ [], written) ∷ ([], written) ∷ (9 ∷ 9 ∷ [], broken 3) ∷ []

abbrev cut : Segments
cut = (0 ∷ []) ∷ (2 ∷ 7 ∷ []) ∷ (8 ∷ 0 ∷ 0 ∷ 0 ∷ []) ∷ (2 ∷ 9 ∷ []) ∷ []

inbound-outbound_loop_example : inbound_loop 4 (λ m. false) cut ≡ some ((7 ∷ 8 ∷ []) ∷ [] ∷ [])
unfolding outbound_loop send_message send_all pack_u16 whole_frames
inbound-outbound_loop_example =
    inbound-outbound_loop 4 (λ m. false) items cut (λ m. refl) (omega arith) (omega arith)
      (omega arith) refl
