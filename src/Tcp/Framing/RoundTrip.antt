-- ===== src/Tcp/Framing/RoundTrip.antt =====
-- A frame that was sent is received whole, however the stream is cut into segments.
use v3xctrl.Base.{
  ℕ, zero, suc, ◌+◌, ◌-◌, ◌≤◌, ◌<◌, ◌≡◌, refl, sym, ◌∙◌, ap, false, inl, inr, Option, some, List,
  [], ◌∷◌, ◌++◌, ltb, leb, arith, length, take, drop, length-append, length-take, length-drop,
  List-cases, take-append-drop, take-append, drop-append, Bool-cases, nat_beq,
}
use mathlib.Core.List.{append_assoc}
use v3xctrl.Base.Bytes.{Bytes, pack_u16, be_value-pack_u16}
use v3xctrl.Tcp.Framing.{
  Segments, written, recv, recv_loop, recv_exact, read_payload, recv_message, send_message,
}

-- No segment is empty: an empty read is the close.
abbrev pub AreFilled : Segments → Type 0
AreFilled [] = Unit
AreFilled (seg ∷ segs) = (0 < length seg) × AreFilled segs

abbrev pub stream : Segments → Bytes
stream [] = []
stream (seg ∷ segs) = seg ++ stream segs

-- One `recv` takes from the front of the stream.
pub recv-stream :
    (n : ℕ) (segs : Segments)
    → AreFilled segs
    → 0 < n
    → ((recv n segs).0 ++ stream (recv n segs).1 ≡ stream segs)
      × AreFilled (recv n segs).1
      × (length (recv n segs).0 ≤ n)
      × (0 < length (stream segs) → 0 < length (recv n segs).0)
unfolding recv
recv-stream n [] f h = (refl, tt, omega arith, λ x. elim x [ ])
recv-stream n (seg ∷ segs) f h = elim (Bool-cases (ltb n (length seg))) [
  | inl e ↦ rw e (
    sym (append_assoc (take n seg) (drop n seg) (stream segs))
        ∙ ap (λ t. t ++ stream segs) (take-append-drop n seg),
    (ground (arith, length-drop n seg), f.1),
    ground (arith, length-take n seg),
    λ x. ground (arith, length-take n seg),
  )
  | inr e ↦ rw e (refl, f.1, ground arith, λ x. f.0)
]

-- What a read of n bytes gives: they are the front of the stream, and the rest is left.
pub record Received (n : ℕ) (before : Bytes) (result : Option Bytes × Segments) : Type 0 where
  pub bytes : Bytes
  pub got : result.0 ≡ some bytes
  pub size : length bytes ≡ n
  pub whole : bytes ++ stream result.1 ≡ before
  pub filled : AreFilled result.1

recv_loop-Received :
    (fuel n : ℕ) (buf : Bytes) (segs : Segments)
    → AreFilled segs
    → n < fuel + length buf
    → length buf ≤ n
    → n ≤ length buf + length (stream segs)
    → Received n (buf ++ stream segs) (recv_loop fuel n buf segs)
unfolding recv_loop
recv_loop-Received zero n buf segs f room fits enough = absurd (omega arith)
recv_loop-Received (suc fuel) n buf segs f room fits enough =
    elim (Bool-cases (leb n (length buf))) [
      | inl e ↦
          rw e (record { bytes = buf; got = refl; size = ground arith; whole = refl; filled = f })
      | inr e ↦
          let got = recv-stream (n - length buf) segs f (ground arith) in
          elim (List-cases (recv (n - length buf) segs).0) [
            | inl none_left ↦ absurd (ground (arith, got, ap length none_left))
            | inr (b, bs, some_left) ↦
                let segs' = (recv (n - length buf) segs).1 in
                let sized : length (buf ++ (b ∷ bs)) ≡ length buf + length (b ∷ bs) =
                  length-append buf (b ∷ bs) in
                let front : (b ∷ bs) ++ stream segs' ≡ stream segs =
                  ap (λ t. t ++ stream segs') (sym some_left) ∙ got.0 in
                let count : length (b ∷ bs) ≤ n - length buf =
                  omega (arith, ap length some_left, got.2) in
                let total : length (b ∷ bs) + length (stream segs') ≡ length (stream segs) =
                  sym (length-append (b ∷ bs) (stream segs')) ∙ ap length front in
                let rest =
                  recv_loop-Received fuel n (buf ++ (b ∷ bs)) segs' got.1 (omega arith)
                    (ground arith) (omega arith) in
                let joined : (buf ++ (b ∷ bs)) ++ stream segs' ≡ buf ++ stream segs =
                  append_assoc buf (b ∷ bs) (stream segs') ∙ ap (λ t. buf ++ t) front in
                rw e (rw some_left (rw joined at rest))
          ]
    ]

-- A read of n bytes from a stream that has them gives its first n bytes and leaves the rest.
pub recv_exact-Received :
    (n : ℕ) (segs : Segments)
    → AreFilled segs
    → n ≤ length (stream segs)
    → Received n (stream segs) (recv_exact segs n)
unfolding recv_exact
recv_exact-Received n segs f enough =
    recv_loop-Received (suc n) n [] segs f (omega arith) (omega arith) (omega arith)

split_prefix :
    (xs ys us vs : Bytes) → xs ++ ys ≡ us ++ vs → length xs ≡ length us → (xs ≡ us) × (ys ≡ vs)
split_prefix xs ys us vs h e = (
  sym (take-append xs ys)
      ∙ ap (take (length xs)) h
      ∙ ap (λ n. take n (us ++ vs)) e
      ∙ take-append us vs,
  sym (drop-append xs ys)
      ∙ ap (drop (length xs)) h
      ∙ ap (λ n. drop n (us ++ vs)) e
      ∙ drop-append us vs,
)

-- What a read gives when the stream is known to begin with n bytes.
recv_exact-prefix :
    (front rest : Bytes) (segs : Segments)
    → AreFilled segs
    → stream segs ≡ front ++ rest
    → ((recv_exact segs (length front)).0 ≡ some front)
      × (stream (recv_exact segs (length front)).1 ≡ rest)
      × AreFilled (recv_exact segs (length front)).1
recv_exact-prefix front rest segs f h =
    let got =
      recv_exact-Received (length front) segs f
        (omega (arith, ap length h, length-append front rest)) in
    let parts = split_prefix got.bytes _ front rest (got.whole ∙ h) got.size in
    (got.got ∙ ap some parts.0, parts.1, got.filled)

abbrev pub frame : Bytes → Bytes
frame data' = pack_u16 (length data') ++ data'

-- the segments after the header of a frame
abbrev pub after_header : Segments → Segments
after_header segs = (recv_exact segs 2).1

pub header_read :
    (n : ℕ) (rest : Bytes) (segs : Segments)
    → AreFilled segs
    → stream segs ≡ pack_u16 n ++ rest
    → ((recv_exact segs 2).0 ≡ some (pack_u16 n))
      × (stream (after_header segs) ≡ rest)
      × AreFilled (after_header segs)
unfolding pack_u16
header_read n rest segs f h = recv_exact-prefix (pack_u16 n) rest segs f h

-- the reading of the payload, once the header is known
payload_read :
    (payload rest : Bytes) (segs : Segments)
    → AreFilled segs
    → stream segs ≡ payload ++ rest
    → let r = read_payload segs (length payload) in
      (r.0 ≡ some payload) × (stream r.1 ≡ rest) × AreFilled r.1
unfolding read_payload
payload_read [] rest segs f h = (refl, h, f)
payload_read (b ∷ payload) rest segs f h =
    let filled : nat_beq (length (b ∷ payload)) 0 ≡ false = ground arith in
    rw filled (recv_exact-prefix (b ∷ payload) rest segs f h)

-- From a stream that begins with the frame of a payload, in whatever non-empty segments it comes,
-- recv_message gives that payload, and leaves the rest of the stream, in non-empty segments.
pub recv_message-frame :
    (payload rest : Bytes) (segs : Segments)
    → AreFilled segs
    → stream segs ≡ frame payload ++ rest
    → ((recv_message segs).0 ≡ some payload)
      × (stream (recv_message segs).1 ≡ rest)
      × AreFilled (recv_message segs).1
unfolding recv_message
recv_message-frame payload rest segs f h =
    let header =
      header_read (length payload) (payload ++ rest) segs f
        (h ∙ append_assoc (pack_u16 (length payload)) payload rest) in
    rw (header.0, recv_message)
      (rw be_value-pack_u16 (payload_read payload rest (after_header segs) header.2 header.1))

-- the bytes of a sequence of frames
abbrev pub frames : List Bytes → Bytes
frames [] = []
frames (m ∷ ms) = frame m ++ frames ms

unfoldable pub send_messages : Bytes → List Bytes → Bytes
send_messages out [] = out
send_messages out (m ∷ ms) = send_messages (send_message written out m).0 ms

unfoldable pub recv_messages : List Bytes → Segments → List (Option Bytes)
recv_messages [] segs = []
recv_messages (m ∷ ms) segs = let (got, segs') = recv_message segs in got ∷ recv_messages ms segs'
