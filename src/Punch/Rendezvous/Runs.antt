-- ===== src/Punch/Rendezvous/Runs.antt =====
-- Runs of the rendezvous server, the rounds of its cleanup thread among those of its main loop, against
-- a board that forgets what is expired.
use v3xctrl.Base.{
  ℕ, ◌+◌, String, Bool, ◌&&◌, none, List, [], ◌∷◌, ◌++◌, ltb, string_eq, if◌then◌else◌,
}
use v3xctrl.Relay.Types.{Address}
use v3xctrl.Punch.Rendezvous.{
  Entry, Sessions, Sent, timeout, clean_expired_sessions, Received, receive,
}
use v3xctrl.Punch.Rendezvous.Matching.{Board, receive_board}
use v3xctrl.Punch.Rendezvous.Entries.{if_there}

abbrev pub is_old : ℕ → Entry → Bool
is_old now entry = ltb (entry.ts + timeout) now

-- No entry of the identifier is within the timeout.
pub is_forgotten : ℕ → String → Board → Bool
is_forgotten now id b =
    (if_there (is_old now) (b id "client" "video")
      && if_there (is_old now) (b id "client" "control"))
    && (if_there (is_old now) (b id "server" "video")
        && if_there (is_old now) (b id "server" "control"))

pub forget : ℕ → Board → Board
forget now b = λ i r p. if is_forgotten now i b then none else b i r p

-- What the server does next: its main loop reads, or its cleanup thread wakes up.
pub data Round : Type 0 where
  read : (Address → Bool) → ℕ → Received → Round
  cleaned : ℕ → Round

unfoldable pub round : Round → Sessions → Sessions × Sent
unfolding receive clean_expired_sessions
round (read fails now x) s = receive fails now x s
round (cleaned now) s = (clean_expired_sessions now s, [])

pub round_board : Round → Board → Board × Sent
unfolding forget
round_board (read fails now x) b = receive_board fails now x b
round_board (cleaned now) b = (forget now b, [])

-- The state after the rounds, and all that was sent.
unfoldable pub run : List Round → Sessions → Sessions × Sent
unfolding round
run [] s = (s, [])
run (x ∷ rounds) s =
    let (s', sent) = round x s in let (s'', later) = run rounds s' in (s'', sent ++ later)

pub run_board : List Round → Board → Board × Sent
run_board [] b = (b, [])
run_board (x ∷ rounds) b =
    let (b', sent) = round_board x b in
    let (b'', later) = run_board rounds b' in (b'', sent ++ later)
