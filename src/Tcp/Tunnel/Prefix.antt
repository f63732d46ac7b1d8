-- ===== src/Tcp/Tunnel/Prefix.antt =====
-- What comes out of a tunnel is what went in, in order, up to the first write that broke.
use mathlib.Core.List.{append_assoc, append-nil}
use v3xctrl.Base.{
  ℕ, zero, suc, ◌+◌, ◌≤◌, ◌<◌, ◌≡◌, refl, sym, ◌∙◌, ap, Bool, false, inl, inr, none, some, List, [],
  ◌∷◌, ◌++◌, ltb, leb, arith, length, take, Bool-cases, if◌then◌else◌,
}
use v3xctrl.Base.Bytes.{Bytes, pack_u16}
use v3xctrl.Tcp.Framing.{Write, written, broken, Segments, send_all, send_message, recv_message}
use v3xctrl.Tcp.Framing.RoundTrip.{AreFilled, stream, frame, recv_message-frame}
use v3xctrl.Tcp.Framing.Sequence.{AreSendable}
use v3xctrl.Tcp.Framing.Truncated.{recv_message-truncated}
use v3xctrl.Tcp.Tunnel.{outbound_loop, inbound_loop}

abbrev pub datagrams : List (Bytes × Write) → List Bytes
datagrams [] = []
datagrams ((m, w) ∷ items) = m ∷ datagrams items

-- how many datagrams are on the wire whole
unfoldable pub whole_frames : List (Bytes × Write) → ℕ
whole_frames [] = 0
whole_frames ((m, written) ∷ items) = suc (whole_frames items)
whole_frames ((m, broken n) ∷ items) = if leb (2 + length m) n then 1 else 0

-- the bytes on the wire
wire : List (Bytes × Write) → Bytes
wire [] = []
wire ((m, written) ∷ items) = frame m ++ wire items
wire ((m, broken n) ∷ items) = take n (frame m)

outbound_loop-wire :
    (items : List (Bytes × Write)) (out : Bytes)
    → AreSendable (datagrams items)
    → outbound_loop out items ≡ out ++ wire items
unfolding outbound_loop wire send_message send_all
outbound_loop-wire [] out h = sym (append-nil out)
outbound_loop-wire ((m, written) ∷ items) out h = elim (Bool-cases (ltb 65535 (length m))) [
  | inl e ↦ absurd (ground arith)
  | inr e ↦
      rw e (outbound_loop-wire items (out ++ frame m) h.1 ∙ append_assoc out (frame m) (wire items))
]
outbound_loop-wire ((m, broken n) ∷ items) out h = elim (Bool-cases (ltb 65535 (length m))) [
  | inl e ↦ absurd (ground arith)
  | inr e ↦ rw e refl
]

length-frame : (m : Bytes) → length (frame m) ≡ 2 + length m
unfolding pack_u16
length-frame m = omega arith

take_all : {A : Type 0} (n : ℕ) (xs : List A) → length xs ≤ n → take n xs ≡ xs
take_all zero [] h = refl
take_all zero (x ∷ xs) h = absurd (omega arith)
take_all (suc n) [] h = refl
take_all (suc n) (x ∷ xs) h = ap (λ t. x ∷ t) (take_all n xs (omega arith))

module _ (raises : Bytes → Bool) (quiet : (m : Bytes) → raises m ≡ false) where
  inbound_loop-message :
      (fuel : ℕ) (segs : Segments) (m : Bytes) (later : List Bytes)
      → (recv_message segs).0 ≡ some m
      → inbound_loop fuel raises (recv_message segs).1 ≡ some later
      → inbound_loop (suc fuel) raises segs ≡ some (m ∷ later)
  unfolding inbound_loop
  inbound_loop-message fuel segs m later got rest = ground (arith, quiet m)

  inbound_loop-end :
      (fuel : ℕ) (segs : Segments)
      → (recv_message segs).0 ≡ none
      → inbound_loop (suc fuel) raises segs ≡ some []
  unfolding inbound_loop
  inbound_loop-end fuel segs got = ground arith

  inbound_loop-empty :
      (fuel : ℕ) (segs : Segments)
      → AreFilled segs
      → stream segs ≡ []
      → inbound_loop (suc fuel) raises segs ≡ some []
  inbound_loop-empty fuel segs f h =
      inbound_loop-end fuel segs (recv_message-truncated [] 0 segs f h (omega arith))

  inbound_loop-wire :
      (fuel : ℕ) (items : List (Bytes × Write)) (segs : Segments)
      → length (datagrams items) < fuel
      → AreFilled segs
      → stream segs ≡ wire items
      → inbound_loop fuel raises segs ≡ some (take (whole_frames items) (datagrams items))
  unfolding wire whole_frames
  inbound_loop-wire zero items segs lt f h = absurd (omega arith)
  inbound_loop-wire (suc fuel) [] segs lt f h = inbound_loop-empty fuel segs f h
  inbound_loop-wire (suc fuel) ((m, written) ∷ items) segs lt f h =
      let (got, left, filled) = recv_message-frame m (wire items) segs f h in
      inbound_loop-message fuel segs m _ got
        (inbound_loop-wire fuel items (recv_message segs).1 (omega arith) filled left)
  inbound_loop-wire (suc zero) ((m, broken n) ∷ items) segs lt f h = absurd (omega arith)
  inbound_loop-wire (suc (suc fuel)) ((m, broken n) ∷ items) segs lt f h =
      elim (Bool-cases (leb (2 + length m) n)) [
        | inl e ↦
            let all_sent : stream segs ≡ frame m ++ [] =
              h
              ∙ take_all n (frame m) (ground (arith, length-frame m))
              ∙ sym (append-nil (frame m)) in
            let (got, left, filled) = recv_message-frame m [] segs f all_sent in
            rw e (
              inbound_loop-message (suc fuel) segs m [] got
                (inbound_loop-empty fuel (recv_message segs).1 filled left))
        | inr e ↦
            rw e (
              inbound_loop-end (suc fuel) segs (recv_message-truncated m n segs f h (ground arith)))
      ]

-- Datagrams of at most 65535 bytes that enter one end of a tunnel, whatever becomes of each write:
-- for every way to cut the stream into segments, and while the local component's socket does not
-- refuse one, the other end ends after it has given out exactly those that are on the wire whole, in
-- order, which are all if no write breaks.
pub inbound-outbound_loop :
    (fuel : ℕ) (raises : Bytes → Bool) (items : List (Bytes × Write)) (segs : Segments)
    → ((m : Bytes) → raises m ≡ false)
    → length (datagrams items) < fuel
    → AreSendable (datagrams items)
    → AreFilled segs
    → stream segs ≡ outbound_loop [] items
    → inbound_loop fuel raises segs ≡ some (take (whole_frames items) (datagrams items))
inbound-outbound_loop fuel raises items segs quiet lt s f h =
    inbound_loop-wire raises quiet fuel items segs lt f (h ∙ outbound_loop-wire items [] s)
