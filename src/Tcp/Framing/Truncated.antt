-- ===== src/Tcp/Framing/Truncated.antt =====
-- A frame that was cut off is no message.
use v3xctrl.Base.{
  ℕ, zero, suc, ◌+◌, ◌-◌, ◌<◌, ◌≡◌, refl, sym, ◌∙◌, ap, false, inl, inr, none, [], ◌∷◌, ◌++◌, leb,
  arith, length, take, length-append, length-take, List-cases, Bool-cases, nat_beq,
}
use v3xctrl.Base.Bytes.{Bytes, pack_u16, be_value-pack_u16}
use v3xctrl.Tcp.Framing.{Segments, recv, recv_loop, recv_exact, read_payload, recv_message}
use v3xctrl.Tcp.Framing.RoundTrip.{AreFilled, stream, recv-stream, frame, header_read, after_header}

recv_loop-short :
    (fuel n : ℕ) (buf : Bytes) (segs : Segments)
    → AreFilled segs
    → length buf + length (stream segs) < n
    → (recv_loop fuel n buf segs).0 ≡ none
unfolding recv_loop
recv_loop-short zero n buf segs f short = refl
recv_loop-short (suc fuel) n buf segs f short = elim (Bool-cases (leb n (length buf))) [
  | inl e ↦ absurd (ground arith)
  | inr e ↦
      let got = recv-stream (n - length buf) segs f (omega arith) in
      elim (List-cases (recv (n - length buf) segs).0) [
        | inl none_left ↦ rw e (rw none_left refl)
        | inr (b, bs, some_left) ↦
            let segs' = (recv (n - length buf) segs).1 in
            let front : (b ∷ bs) ++ stream segs' ≡ stream segs =
              ap (λ t. t ++ stream segs') (sym some_left) ∙ got.0 in
            let total : length (b ∷ bs) + length (stream segs') ≡ length (stream segs) =
              sym (length-append (b ∷ bs) (stream segs')) ∙ ap length front in
            let rest =
              recv_loop-short fuel n (buf ++ (b ∷ bs)) segs' got.1
                (omega (arith, length-append buf (b ∷ bs))) in
            rw e (rw some_left rest)
      ]
]

recv_exact-short :
    (n : ℕ) (segs : Segments)
    → AreFilled segs
    → length (stream segs) < n
    → (recv_exact segs n).0 ≡ none
unfolding recv_exact
recv_exact-short n segs f short = recv_loop-short (suc n) n [] segs f (omega arith)

recv_message-no_header :
    (segs : Segments) → (recv_exact segs 2).0 ≡ none → (recv_message segs).0 ≡ none
unfolding recv_message
recv_message-no_header segs h = ground arith

-- A stream that is the beginning of a frame, but not all of it, gives no message.
pub recv_message-truncated :
    (payload : Bytes) (k : ℕ) (segs : Segments)
    → AreFilled segs
    → stream segs ≡ take k (frame payload)
    → k < 2 + length payload
    → (recv_message segs).0 ≡ none
unfolding recv_message read_payload pack_u16
recv_message-truncated payload zero segs f h short =
    recv_message-no_header segs (recv_exact-short 2 segs f (omega (arith, ap length h)))
recv_message-truncated payload (suc zero) segs f h short =
    recv_message-no_header segs (recv_exact-short 2 segs f (omega (arith, ap length h)))
recv_message-truncated payload (suc (suc j)) segs f h short =
    let header = header_read (length payload) (take j payload) segs f h in
    let sized = length-take j payload in
    let cut =
      recv_exact-short (length payload) (after_header segs) header.2
        (omega (arith, ap length header.1)) in
    let filled : nat_beq (length payload) 0 ≡ false = ground arith in
    rw (header.0, recv_message) (rw be_value-pack_u16 (rw filled cut))
