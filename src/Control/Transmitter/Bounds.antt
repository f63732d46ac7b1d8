-- ===== src/Control/Transmitter/Bounds.antt =====
-- The control buffer holds the latest messages, and no stale packet of the queue is sent.
use v3xctrl.Base.{
  ℕ, zero, suc, ◌+◌, ◌-◌, ◌≤◌, ◌≡◌, refl, sym, ◌∙◌, ap, Bool, List, [], ◌∷◌, ◌++◌, arith, length,
  ltb, length-append, length-drop, drop, if◌then◌else◌,
}
use mathlib.Core.List.{append_assoc, append-nil}
use v3xctrl.Relay.Types.{Address}
use v3xctrl.Control.Message.{Message}
use v3xctrl.Control.Transmitter.{
  UdpPacket, Transmitter, append_bounded, add_message, set_control_message, process_round,
}

-- The items that stay of a list when at most `n` may.
abbrev pub latest : ℕ → List UdpPacket → List UdpPacket
latest n l = drop (length l - n) l

drop-append_lt :
    (n : ℕ) (xs ys : List UdpPacket) → n ≤ length xs → drop n (xs ++ ys) ≡ drop n xs ++ ys
drop-append_lt zero xs ys h = refl
drop-append_lt (suc n) [] ys h = absurd (omega arith)
drop-append_lt (suc n) (x ∷ xs) ys h = drop-append_lt n xs ys (omega arith)

drop-nil : (n : ℕ) → drop n (let none_left : List UdpPacket = [] in none_left) ≡ []
drop-nil zero = refl
drop-nil (suc n) = refl

drop-drop : (m n : ℕ) (xs : List UdpPacket) → drop n (drop m xs) ≡ drop (m + n) xs
drop-drop zero n xs = ap (λ k. drop k xs) (omega arith)
drop-drop (suc m) n [] = drop-nil n ∙ sym (drop-nil (suc m + n))
drop-drop (suc m) n (x ∷ xs) =
    let e : suc m + n ≡ suc (m + n) = omega arith in
    drop-drop m n xs ∙ ap (λ k. drop k (x ∷ xs)) (sym e)

-- Appending to the latest of a list gives the latest of the longer list.
append_bounded-latest :
    (n : ℕ) (l : List UdpPacket) (p : UdpPacket)
    → append_bounded n (latest n l) p ≡ latest n (l ++ (p ∷ []))
unfolding append_bounded
append_bounded-latest n l p =
    let k = length l - n in
    let longer = drop k l ++ (p ∷ []) in
    let joined : longer ≡ drop k (l ++ (p ∷ [])) =
      sym (drop-append_lt k l (p ∷ []) (omega arith)) in
    let count : k + (length longer - n) ≡ length (l ++ (p ∷ [])) - n =
      omega (arith, length-append (drop k l) (p ∷ []), length-drop k l, length-append l (p ∷ [])) in
    ap (drop (length longer - n)) joined
    ∙ drop-drop k (length longer - n) (l ++ (p ∷ []))
    ∙ ap (λ m. drop m (l ++ (p ∷ []))) count

-- set_control_message for each of the messages
unfoldable pub set_control_messages : Address → ℕ → List Message → Transmitter → Transmitter
set_control_messages addr now [] t = t
set_control_messages addr now (m ∷ ms) t =
    set_control_messages addr now ms (set_control_message m addr now t)

abbrev pub packets : Address → ℕ → List Message → List UdpPacket
packets addr now [] = []
packets addr now (m ∷ ms) =
    record { message = m; addr = addr; timestamp = now } ∷ packets addr now ms

set_control_messages-latest :
    (addr : Address) (now : ℕ) (ms : List Message) (t : Transmitter) (l : List UdpPacket)
    → t.control_buffer ≡ latest t.control_capacity l
    → (set_control_messages addr now ms t).control_buffer
      ≡ latest t.control_capacity (l ++ packets addr now ms)
unfolding set_control_messages set_control_message
set_control_messages-latest addr now [] t l h =
    h ∙ ap (latest t.control_capacity) (sym (append-nil l))
set_control_messages-latest addr now (m ∷ ms) t l h =
    let p : UdpPacket = record { message = m; addr = addr; timestamp = now } in
    set_control_messages-latest addr now ms (set_control_message m addr now t) (l ++ (p ∷ [])) (
      ap (λ b. append_bounded t.control_capacity b p) h
      ∙ append_bounded-latest t.control_capacity l p)
    ∙ ap (latest t.control_capacity) (append_assoc l (p ∷ []) (packets addr now ms))

-- Control messages that are set while none is sent leave in the buffer exactly the last of them, as
-- many as its capacity, in their order; what was there before counts as earlier messages.
pub set_control_messages-keeps_latest :
    (addr : Address) (now : ℕ) (ms : List Message) (t : Transmitter)
    → length t.control_buffer ≤ t.control_capacity
    → (set_control_messages addr now ms t).control_buffer
      ≡ latest t.control_capacity (t.control_buffer ++ packets addr now ms)
set_control_messages-keeps_latest addr now ms t h =
    let full : length t.control_buffer - t.control_capacity ≡ 0 = omega arith in
    set_control_messages-latest addr now ms t t.control_buffer (rw full refl)

-- A run of the transmitter: messages come from outside between the rounds.
pub data Action : Type 0 where
  queue_message set_control : Message → Address → ℕ → Action
  round : (UdpPacket → Bool) → ℕ → Action

unfoldable pub act : Transmitter → Action → Transmitter
act t (queue_message m addr now) = add_message m addr now t
act t (set_control m addr now) = set_control_message m addr now t
act t (round sendable now) = process_round sendable now t

unfoldable pub act_all : Transmitter → List Action → Transmitter
act_all t [] = t
act_all t (a ∷ as') = act_all (act t a) as'

append_bounded-le : (n : ℕ) (l : List UdpPacket) (p : UdpPacket) → length (append_bounded n l p) ≤ n
unfolding append_bounded
append_bounded-le n l p =
    let longer = l ++ (p ∷ []) in omega (arith, length-drop (length longer - n) longer)

act-bounded :
    (t : Transmitter) (a : Action)
    → length t.control_buffer ≤ t.control_capacity
    → (length (act t a).control_buffer ≤ (act t a).control_capacity)
      × ((act t a).control_capacity ≡ t.control_capacity)
unfolding act set_control_message process_round add_message
act-bounded t (queue_message m addr now) h = (h, refl)
act-bounded t (set_control m addr now) h =
    (append_bounded-le t.control_capacity t.control_buffer _, refl)
act-bounded t (round sendable now) h = ground arith

-- Whatever is queued, set and sent, in any order, the control buffer never passes its capacity.
act_all-bounded :
    (t : Transmitter) (as' : List Action)
    → length t.control_buffer ≤ t.control_capacity
    → (length (act_all t as').control_buffer ≤ t.control_capacity)
      × ((act_all t as').control_capacity ≡ t.control_capacity)
unfolding act_all
act_all-bounded t [] h = (h, refl)
act_all-bounded t (a ∷ as') h =
    let (one, same) = act-bounded t a h in
    let (all, kept) = act_all-bounded (act t a) as' one in (omega arith, kept ∙ same)

-- With no control message waiting, a round sends the oldest queued packet if it is at most `ttl` old
-- and the socket takes it, drops it if it is older or the socket refuses it, and in all cases takes
-- exactly it from the queue.
pub process_round-queued :
    (sendable : UdpPacket → Bool) (now : ℕ) (t : Transmitter) (p : UdpPacket)
    (rest : List UdpPacket)
    → t.control_buffer ≡ []
    → t.queue ≡ p ∷ rest
    → ((process_round sendable now t).queue ≡ rest)
      × ((process_round sendable now t).sent ≡ (
          if ltb (p.timestamp + t.ttl) now
          then t.sent
          else if sendable p
          then t.sent ++ (p ∷ [])
          else t.sent))
unfolding process_round
process_round-queued sendable now t p rest c q = (ground arith, ground arith)
