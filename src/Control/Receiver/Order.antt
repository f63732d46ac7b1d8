-- ===== src/Control/Receiver/Order.antt =====
-- What the receiver lets through, over whole sequences of arrivals.
use v3xctrl.Base.{
  ℕ, ◌<◌, ◌≡◌, refl, ◌∙◌, String, Bool, true, false, ◌||◌, some, List, [], ◌∷◌, ◌++◌, arith, length,
  ltb, leb, string_eq, Bool-cases, ◌⊎◌, inl, inr,
}
use v3xctrl.Relay.Types.{Address}
use v3xctrl.Control.Message.{Message, is_exempt, is_handshake, latency, telemetry}
use v3xctrl.Control.Receiver.{
  Receiver, Arrival, is_valid_message, receive, receive_all, put_nowait, queue_size, is_wrong_host,
}

-- The kinds that are not checked against the last timestamp: Command, CommandAck, Latency, Syn, Ack.
abbrev pub is_unchecked : Message → Bool
is_unchecked m = is_exempt m.body || is_handshake m.body

-- Along the queue, an order-critical message is not earlier than the one before it, of any kind.
abbrev pub Rises : List (Message × Address) → Type 0
Rises [] = Unit
Rises ((m, a) ∷ []) = Unit
Rises ((m, a) ∷ (n, b) ∷ q) =
    (is_unchecked n || leb m.timestamp n.timestamp ≡ true) × Rises ((n, b) ∷ q)

-- The last item has the timestamp.
abbrev LastIs : ℕ → List (Message × Address) → Type 0
LastIs stamp [] = Unit
LastIs stamp ((m, a) ∷ []) = m.timestamp ≡ stamp
LastIs stamp (x ∷ y ∷ q) = LastIs stamp (y ∷ q)

LastIs-append :
    (m : Message) (a : Address) (q : List (Message × Address))
    → LastIs m.timestamp (q ++ ((m, a) ∷ []))
LastIs-append m a [] = refl
LastIs-append m a (x ∷ []) = refl
LastIs-append m a (x ∷ y ∷ q) = LastIs-append m a (y ∷ q)

Rises-append :
    (stamp : ℕ) (m : Message) (a : Address) (q : List (Message × Address))
    → (is_unchecked m || leb stamp m.timestamp) ≡ true
    → LastIs stamp q
    → Rises q
    → Rises (q ++ ((m, a) ∷ []))
Rises-append stamp m a [] h l r = tt
Rises-append stamp m a ((n, b) ∷ []) h l r = (rw l h, tt)
Rises-append stamp m a ((n, b) ∷ (k, d) ∷ q) h l r =
    (r.0, Rises-append stamp m a ((k, d) ∷ q) h l r.1)

-- The queue rises, and ends with the last timestamp if it is not full.
record IsTracked (r : Receiver) : Type 0 where
  rises : Rises r.queue
  last : LastIs r.last_valid_timestamp r.queue ⊎ (ltb (length r.queue) queue_size ≡ false)

-- What one arrival does: nothing, or a new timestamp and an item put to the queue.
receive-cases :
    (r : Receiver) (m : Message) (addr : Address) (now : ℕ)
    → (receive r m addr now ≡ r)
      ⊎ (((is_unchecked m || leb r.last_valid_timestamp m.timestamp) ≡ true)
          × ((receive r m addr now).last_valid_timestamp ≡ m.timestamp)
          × ((receive r m addr now).queue ≡ put_nowait (m, addr) r.queue))
unfolding receive is_valid_message
receive-cases r m addr now = ground arith

receive-IsTracked :
    (r : Receiver) (m : Message) (addr : Address) (now : ℕ)
    → IsTracked r
    → IsTracked (receive r m addr now)
unfolding put_nowait
receive-IsTracked r m addr now t = elim (receive-cases r m addr now) [
  | inl same ↦ rw same t
  | inr (later, stamp, queued) ↦ elim (Bool-cases (ltb (length r.queue) queue_size)) [
    | inl room ↦
        let put : (receive r m addr now).queue ≡ r.queue ++ ((m, addr) ∷ []) =
          queued ∙ rw room refl in
        record {
          rises = rw put (elim t.last [
            | inl l ↦ Rises-append r.last_valid_timestamp m addr r.queue later l t.rises
            | inr full ↦ cc
          ]);
          last = inl (rw (stamp, put) (LastIs-append m addr r.queue));
        }
    | inr full ↦
        let put : (receive r m addr now).queue ≡ r.queue = queued ∙ rw full refl in
        record { rises = rw put t.rises; last = inr (rw put full) }
  ]
]

receive_all-IsTracked :
    (r : Receiver) (arrivals : List Arrival) → IsTracked r → IsTracked (receive_all r arrivals)
unfolding receive_all
receive_all-IsTracked r [] t = t
receive_all-IsTracked r (a ∷ arrivals) t =
    receive_all-IsTracked (receive r a.message a.addr a.now) arrivals
      (receive-IsTracked r a.message a.addr a.now t)

-- From an empty queue, whatever messages of whatever kinds arrive, late, repeated or out of order, and
-- none is taken from the queue meanwhile: along the queue, a message that is no Command, CommandAck,
-- Latency, Syn or Ack is not earlier than the message queued directly before it.
pub receive_all-Rises :
    (r : Receiver) (arrivals : List Arrival) → r.queue ≡ [] → Rises (receive_all r arrivals).queue
receive_all-Rises r arrivals e =
    let start : IsTracked r = record { rises = rw e tt; last = inl (rw e tt) } in
    (receive_all-IsTracked r arrivals start).rises

-- A Latency message is not checked against the last timestamp and yet sets it: after one from the
-- expected host, any Telemetry with an earlier timestamp is refused, at any time and from any address.
pub latency-blocks_telemetry :
    (r : Receiver) (m t : Message) (addr from : Address) (now later : ℕ)
    → m.body ≡ latency
    → is_wrong_host r.expected_host addr ≡ false
    → t.body ≡ telemetry
    → t.timestamp < m.timestamp
    → (is_valid_message (receive r m addr now) t from later).1 ≡ false
unfolding receive is_valid_message
latency-blocks_telemetry r m t addr from now later b w tb lt = ground arith

-- Every item is from the host.
abbrev pub AreFrom : String → List (Message × Address) → Type 0
AreFrom host [] = Unit
AreFrom host ((m, a) ∷ q) = (a.host ≡ host) × AreFrom host q

AreFrom-put_nowait :
    (host : String) (m : Message) (a : Address) (q : List (Message × Address))
    → a.host ≡ host
    → AreFrom host q
    → AreFrom host (put_nowait (m, a) q)
unfolding put_nowait
AreFrom-put_nowait host m a q h f = elim (Bool-cases (ltb (length q) queue_size)) [
  | inl e ↦ rw e (append q f)
  | inr e ↦ rw e f
]
  where
    append : (q' : List (Message × Address)) → AreFrom host q' → AreFrom host (q' ++ ((m, a) ∷ []))
    append [] f' = (h, tt)
    append ((n, b) ∷ q') f' = (f'.0, append q' f'.1)

receive-from :
    (host : String) (r : Receiver) (m : Message) (addr : Address) (now : ℕ)
    → r.expected_host ≡ some host
    → ((receive r m addr now).expected_host ≡ some host)
      × (((receive r m addr now).queue ≡ r.queue)
          ⊎ ((addr.host ≡ host) × ((receive r m addr now).queue ≡ put_nowait (m, addr) r.queue)))
unfolding receive is_valid_message
receive-from host r m addr now h = elim (Bool-cases (is_wrong_host r.expected_host addr)) [
  | inl e ↦ ground arith
  | inr e ↦
      let same : addr.host ≡ host = ground (arith, string_eq.same_iff addr.host host) in
      ground arith
]

-- With a host to validate, only messages from that host are ever queued.
pub receive_all-AreFrom :
    (host : String) (r : Receiver) (arrivals : List Arrival)
    → r.expected_host ≡ some host
    → AreFrom host r.queue
    → AreFrom host (receive_all r arrivals).queue
unfolding receive_all
receive_all-AreFrom host r [] h q = q
receive_all-AreFrom host r (a ∷ arrivals) h q =
    let (kept, queued) = receive-from host r a.message a.addr a.now h in
    receive_all-AreFrom host (receive r a.message a.addr a.now) arrivals kept (elim queued [
      | inl same ↦ rw same q
      | inr (sent, more) ↦ rw more (AreFrom-put_nowait host a.message a.addr r.queue sent q)
    ])
