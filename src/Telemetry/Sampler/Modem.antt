-- ===== src/Telemetry/Sampler/Modem.antt =====
-- The modem while no SIM card is there.
use v3xctrl.Base.{ℕ, ◌<◌, ◌≡◌, true, false, Option, List, [], ◌∷◌, arith}
use v3xctrl.Telemetry.Sampler.{
  Probe, failed, no_sim, ready, Telemetry, init_modem, modem_available, update_signal, update_cell,
  Answers, update_modem, round, run_rounds,
}

pub record IsSound (t : Telemetry) : Type 0 where
  pub counted : t.sim_recheck_counter < 30
  pub apart : t.modem ≡ true → t.sim_absent ≡ false

init_modem-IsSound : (p : Probe) (t : Telemetry) → IsSound t → IsSound (init_modem p t).0
unfolding init_modem
init_modem-IsSound failed t s = ground (arith, s.counted, s.apart)
init_modem-IsSound no_sim t s = ground (arith, s.counted, s.apart)
init_modem-IsSound ready t s = ground (arith, s.counted, s.apart)

modem_available-IsSound : (p : Probe) (t : Telemetry) → IsSound t → IsSound (modem_available p t).0
unfolding modem_available
modem_available-IsSound p t s = ground (
  arith,
  s.counted,
  s.apart,
  init_modem-IsSound p t s,
  init_modem-IsSound p (record t { sim_recheck_counter = 0 })
      (record { counted = omega arith; apart = s.apart }),
)

update_signal-IsSound :
    (x : Option (ℕ × ℕ)) (t : Telemetry) → IsSound t → IsSound (update_signal x t)
unfolding update_signal
update_signal-IsSound x t s = ground (arith, s.counted, s.apart)

update_modem-IsSound : (a : Answers) (t : Telemetry) → IsSound t → IsSound (update_modem a t)
unfolding update_modem update_cell
update_modem-IsSound a t s = ground (
  arith,
  modem_available-IsSound a.probe t s,
  update_signal-IsSound a.signal (modem_available a.probe t).0
      (modem_available-IsSound a.probe t s),
)

round-IsSound : (a : Answers) (t : Telemetry) → IsSound t → IsSound (round a t).0
unfolding round
round-IsSound a t s =
    let s' = update_modem-IsSound a t s in record { counted = s'.counted; apart = s'.apart }

-- In every run, the counter of rounds without a SIM card stays below 30, and a modem that is in use
-- has its SIM card.
pub run_rounds-IsSound :
    (as' : List Answers) (t : Telemetry) → IsSound t → IsSound (run_rounds as' t)
unfolding run_rounds
run_rounds-IsSound [] t s = s
run_rounds-IsSound (a ∷ as') t s =
    let s' = round-IsSound a t s in ground (arith, s', run_rounds-IsSound as' (round a t).0 s')
