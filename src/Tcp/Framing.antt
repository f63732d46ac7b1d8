-- ===== src/Tcp/Framing.antt =====
-- framing.py: messages with a two-byte length in front. An incoming socket is the list of the
-- segments that are still to come, the peer's close after the last; an outgoing one is the bytes
-- written so far, with what the system does to the next write.
pub mod RoundTrip
pub mod Sequence
pub mod Truncated
use v3xctrl.Base.{
  ℕ, zero, suc, ◌+◌, ◌-◌, Bool, true, false, Option, none, some, List, [], ◌∷◌, ◌++◌, ltb, leb,
  ◌==◌, nat_eq, length, take, drop, if◌then◌else◌,
}
use v3xctrl.Base.Bytes.{Bytes, pack_u16, be_value}

abbrev pub header_size : ℕ
header_size = 2

abbrev pub max_payload_size : ℕ
max_payload_size = 0xffff

-- `sendall` writes all, or raises an OSError after some of the bytes.
pub data Write : Type 0 where
  written : Write
  broken : ℕ → Write

unfoldable pub send_all : Write → Bytes → Bytes → Bytes × Bool
send_all written out bytes = (out ++ bytes, true)
send_all (broken n) out bytes = (out ++ take n bytes, false)

unfoldable pub send_message : Write → Bytes → Bytes → Bytes × Bool
unfolding send_all
send_message w out bytes =
    if ltb max_payload_size (length bytes)
    then (out, false)
    else send_all w out (pack_u16 (length bytes) ++ bytes)

abbrev pub Segments : Type 0
Segments = List Bytes

-- `sock.recv(n)`: at most n bytes of the next segment; no bytes after the close.
unfoldable pub recv : ℕ → Segments → Bytes × Segments
recv n [] = ([], [])
recv n (seg ∷ segs) = if ltb n (length seg) then (take n seg, drop n seg ∷ segs) else (seg, segs)

-- The loop of _recv_exact, from the bytes that are still wanted. Every round but the last brings a
-- byte, so `n` rounds and the last test are enough. The second part is what the socket still has.
unfoldable pub recv_loop : ℕ → ℕ → Bytes → Segments → Option Bytes × Segments
unfolding recv
recv_loop zero n buf segs = (none, segs)
recv_loop (suc fuel) n buf segs =
    if leb n (length buf)
    then (some buf, segs)
    else let (chunk, segs') = recv (n - length buf) segs in
      elim chunk [ [] ↦ (none, segs') | b ∷ bs ↦ recv_loop fuel n (buf ++ (b ∷ bs)) segs' ]

-- _recv_exact
unfoldable pub recv_exact : Segments → ℕ → Option Bytes × Segments
unfolding recv_loop
recv_exact segs n = recv_loop (suc n) n [] segs

-- from `if length == 0` on
unfoldable pub read_payload : Segments → ℕ → Option Bytes × Segments
read_payload segs size = if size == 0 then (some [], segs) else recv_exact segs size

unfoldable pub recv_message : Segments → Option Bytes × Segments
recv_message segs =
    let (header, segs') = recv_exact segs header_size in
    elim header [ none ↦ (none, segs') | some bytes ↦ read_payload segs' (be_value 0 bytes) ]
