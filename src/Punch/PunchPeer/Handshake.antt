-- ===== src/Punch/PunchPeer/Handshake.antt =====
-- When a handshake returns, with whom, and what it has sent.
use v3xctrl.Base.{
  ℕ, ◌+◌, ◌≡◌, refl, Bool, true, false, Option, none, some, List, [], ◌∷◌, ◌++◌, ltb, if◌then◌else◌,
  arith,
}
use v3xctrl.Control.Message.{Body, syn, syn_ack, ack}
use v3xctrl.Relay.Types.{Address}
use v3xctrl.Punch.PunchPeer.{
  Event, unsent, silence, faulty, received, Outcome, waiting, returned, ack_timeout, sending,
  answer, call_out, handshake_loop,
}

-- A message that ends the handshake.
pub closes : Body → Bool
closes syn_ack = true
closes ack = true
closes _ = false

-- The source that a round's message closes the handshake with.
pub closing : Event → Option Address
closing (received body source) = if closes body then some source else none
closing _ = none

-- What a round sends.
pub sent_in : Address → Event → List (Body × Address)
sent_in addr unsent = []
sent_in addr (received syn source) = (syn, addr) ∷ (syn_ack, source) ∷ []
sent_in addr (received syn_ack source) = (syn, addr) ∷ (ack, source) ∷ []
sent_in addr _ = (syn, addr) ∷ []

-- What the rounds in time send, up to the first that closes.
pub first_answer : ℕ → Address → List (ℕ × Event) → List (Body × Address) × Outcome
first_answer deadline addr [] = ([], waiting)
first_answer deadline addr ((now, e) ∷ rounds) =
    let (sent, outcome) = first_answer deadline addr rounds in
    if ltb now deadline
    then (elim (closing e) [
      | some source ↦ (sent_in addr e, returned source)
      | none ↦ (sent_in addr e ++ sent, outcome)
    ])
    else ([], ack_timeout)

-- _handshake gives a Syn to its socket in each round in time, answers a Syn by a SynAck and a SynAck
-- by an Ack, and returns the source of the first SynAck or Ack, whoever sent it. If the time is over
-- first, it raises AckTimeoutError.
pub handshake_loop-first_answer :
    (timeout start : ℕ) (addr : Address) (rounds : List (ℕ × Event))
    → handshake_loop timeout start addr false rounds ≡ first_answer (start + timeout) addr rounds
unfolding handshake_loop sending answer call_out first_answer closing closes sent_in
handshake_loop-first_answer timeout start addr [] = refl
handshake_loop-first_answer timeout start addr ((now, unsent) ∷ rounds) =
    ground (arith, handshake_loop-first_answer timeout start addr rounds)
handshake_loop-first_answer timeout start addr ((now, silence) ∷ rounds) =
    ground (arith, handshake_loop-first_answer timeout start addr rounds)
handshake_loop-first_answer timeout start addr ((now, faulty) ∷ rounds) =
    ground (arith, handshake_loop-first_answer timeout start addr rounds)
handshake_loop-first_answer timeout start addr ((now, received body source) ∷ rounds) =
    ground (arith, handshake_loop-first_answer timeout start addr rounds)
