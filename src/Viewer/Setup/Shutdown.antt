-- ===== src/Viewer/Setup/Shutdown.antt =====
-- Shutdown stops what the setup has started.
use v3xctrl.Base.{
  Bool-cases, inl, inr, not, is_some, ℕ, ◌≡◌, refl, sym, ◌∙◌, String, Bool, true, false, ◌&&◌, ◌||◌,
  Option, none, some, List, [], ◌∷◌, ◌++◌, string_eq, arith, nat_beq,
}
use v3xctrl.Relay.Types.{Transport, udp, tcp}
use v3xctrl.Viewer.Setup.{
  Component, video_tunnel, control_tunnel, keep_alive, tcp_server, video_receiver, server,
  RelayConfig, PeerAnswer, addresses, rejected, crashed, ServerAnswer, started, control_port_in_use,
  server_error, raised, choose_receiver, Answers, Result, empty_result, start_component,
  setup_video_receiver, setup_server, setup_rest, start_tunnels, start_keep_alive, start_tcp_server,
  follow_answer, orchestrate_setup, Controller, relay_config, is_true, keep_server, apply_result,
  setup_ports, stops, shutdown,
}

unfoldable pub code : Component → ℕ
code video_tunnel = 0
code control_tunnel = 1
code keep_alive = 2
code tcp_server = 3
code video_receiver = 4
code server = 5

-- The component is in the list.
unfoldable pub holds : Component → List Component → Bool
unfolding code
holds x [] = false
holds x (y ∷ ys) = nat_beq (code y) (code x) || holds x ys

holds-append :
    (x : Component) (ys zs : List Component) → holds x (ys ++ zs) ≡ (holds x ys || holds x zs)
unfolding holds
holds-append x [] zs = refl
holds-append x (y ∷ ys) zs = ground (arith, holds-append x ys zs)

is_started : Option ServerAnswer → Bool
is_started (some started) = true
is_started _ = false

-- What the fields of a result tell of the components.
known : Result → List Component
known r =
    stops (is_started r.has_server) (server ∷ [])
    ++ (stops r.has_keep_alive (keep_alive ∷ [])
        ++ (stops (is_true r.has_receiver) (video_receiver ∷ [])
            ++ (stops r.has_tcp_server (tcp_server ∷ [])
                ++ stops r.has_tunnels (video_tunnel ∷ control_tunnel ∷ []))))

-- The fields tell which components were started.
IsFaithful : Component → Result → Type 0
IsFaithful x r = holds x r.started_components ≡ holds x (known r)

or_third : (s a b v w : Bool) → s ≡ (a || (b || w)) → (s || v) ≡ (a || (b || (v || w)))
or_third s a b v w h = ground arith

or_first : (s v w : Bool) → s ≡ w → (s || v) ≡ (v || w)
or_first s v w h = ground arith

module _ (x : Component) where
  known_lem :
      (r : Result)
      → holds x (known r) ≡ (
          holds x (stops (is_started r.has_server) (server ∷ []))
          || (holds x (stops r.has_keep_alive (keep_alive ∷ []))
              || (holds x (stops (is_true r.has_receiver) (video_receiver ∷ []))
                  || (holds x (stops r.has_tcp_server (tcp_server ∷ []))
                      || holds x (stops r.has_tunnels (video_tunnel ∷ control_tunnel ∷ []))))))
  unfolding known
  known_lem r = simp holds-append

  receiver_started-IsFaithful :
      (r : Result)
      → r.has_receiver ≡ none
      → IsFaithful x r
      → IsFaithful x (record (start_component video_receiver r) { has_receiver = some true })
  unfolding IsFaithful start_component is_true stops holds
  receiver_started-IsFaithful r n f =
      holds-append x r.started_components (video_receiver ∷ [])
      ∙ or_third _ _ _ _ _ (rw n at (f ∙ known_lem r))
      ∙ sym (known_lem (record (start_component video_receiver r) { has_receiver = some true }))

  receiver_failed-IsFaithful :
      (r : Result)
      → r.has_receiver ≡ none
      → IsFaithful x r
      → IsFaithful x (record r { has_receiver = some false })
  unfolding IsFaithful is_true stops holds
  receiver_failed-IsFaithful r n f =
      (rw n at (f ∙ known_lem r)) ∙ sym (known_lem (record r { has_receiver = some false }))

  setup_video_receiver-IsFaithful :
      (kind : String) (a : Answers) (r : Result)
      → r.has_receiver ≡ none
      → IsFaithful x r
      → IsFaithful x (setup_video_receiver kind a r)
        × ((setup_video_receiver kind a r).has_server ≡ r.has_server)
  unfolding setup_video_receiver IsFaithful
  setup_video_receiver-IsFaithful kind a r n f =
      elim (Bool-cases (
        is_some (choose_receiver kind a.gst_available a.pyav_available) && not a.receiver_raises)) [
          | inl e ↦
              rw (setup_video_receiver, e)
                (receiver_started-IsFaithful r n f, unfold start_component in refl)
          | inr e ↦ rw (setup_video_receiver, e) (receiver_failed-IsFaithful r n f, refl)
        ]

  server_started-IsFaithful :
      (r : Result) (spectator_mode : Bool)
      → r.has_server ≡ none
      → IsFaithful x r
      → IsFaithful x (record (start_component server r) {
        has_server = some started;
        spectating = spectator_mode;
      })
  unfolding IsFaithful start_component is_started stops holds
  server_started-IsFaithful r spectator_mode n f =
      holds-append x r.started_components (server ∷ [])
      ∙ or_first _ _ _ (rw n at (f ∙ known_lem r))
      ∙ sym (
          known_lem (record (start_component server r) {
            has_server = some started;
            spectating = spectator_mode;
          }))

  server_failed-IsFaithful :
      (r : Result) (answer : ServerAnswer)
      → is_started (some answer) ≡ false
      → r.has_server ≡ none
      → IsFaithful x r
      → IsFaithful x (record r { has_server = some answer })
  unfolding IsFaithful is_started stops holds
  server_failed-IsFaithful r answer e n f =
      (rw n at (f ∙ known_lem r))
      ∙ sym (rw e at (known_lem (record r { has_server = some answer })))

  answered-IsFaithful :
      (spectator_mode : Bool) (a : Answers) (r : Result) (answer : ServerAnswer)
      → a.server ≡ answer
      → r.has_server ≡ none
      → IsFaithful x r
      → IsFaithful x (setup_server spectator_mode a r).0
  unfolding setup_server
  answered-IsFaithful spectator_mode a r raised e n f = rw (setup_server, e) f
  answered-IsFaithful spectator_mode a r started e n f =
      rw (setup_server, e) (server_started-IsFaithful r spectator_mode n f)
  answered-IsFaithful spectator_mode a r control_port_in_use e n f =
      rw (setup_server, e)
        (server_failed-IsFaithful r control_port_in_use (unfold is_started in refl) n f)
  answered-IsFaithful spectator_mode a r server_error e n f =
      rw (setup_server, e) (server_failed-IsFaithful r server_error (unfold is_started in refl) n f)

  setup_server-IsFaithful :
      (spectator_mode : Bool) (a : Answers) (r : Result)
      → r.has_server ≡ none
      → IsFaithful x r
      → IsFaithful x (setup_server spectator_mode a r).0
  setup_server-IsFaithful spectator_mode a r n f =
      answered-IsFaithful spectator_mode a r a.server refl n f

  setup_rest-IsFaithful :
      (kind : String) (spectator_mode : Bool) (a : Answers) (r : Result)
      → r.has_receiver ≡ none
      → r.has_server ≡ none
      → IsFaithful x r
      → IsFaithful x (setup_rest kind spectator_mode a r).0
  unfolding setup_rest
  setup_rest-IsFaithful kind spectator_mode a r n m f =
      let (g, same) = setup_video_receiver-IsFaithful kind a r n f in
      setup_server-IsFaithful spectator_mode a (setup_video_receiver kind a r) (rw same m) g

  follow_answer-IsFaithful :
      (kind : String) (relay : RelayConfig) (a : Answers) (p : PeerAnswer)
      → IsFaithful x (follow_answer kind relay a p).0
  unfolding follow_answer IsFaithful known stops is_started is_true holds
  follow_answer-IsFaithful kind relay a crashed = refl
  follow_answer-IsFaithful kind relay a (rejected e) = refl
  follow_answer-IsFaithful kind relay a (addresses video) =
      setup_rest-IsFaithful kind relay.spectator_mode a (start_keep_alive empty_result)
        (unfold start_keep_alive start_component in refl)
        (unfold start_keep_alive start_component in refl)
        (unfold start_keep_alive start_component in refl)

  orchestrate_setup-IsFaithful :
      (t : Transport) (kind : String) (relay : Option RelayConfig) (a : Answers)
      → IsFaithful x (orchestrate_setup t kind relay a).0
  unfolding orchestrate_setup
  orchestrate_setup-IsFaithful tcp kind (some relay) a =
      setup_rest-IsFaithful kind relay.spectator_mode a (start_tunnels empty_result)
        (unfold start_tunnels start_component in refl)
        (unfold start_tunnels start_component in refl)
        (unfold IsFaithful known start_tunnels start_component stops is_started is_true in refl)
  orchestrate_setup-IsFaithful tcp kind none a =
      setup_rest-IsFaithful kind false a (start_tcp_server empty_result)
        (unfold start_tcp_server start_component in refl)
        (unfold start_tcp_server start_component in refl)
        (unfold IsFaithful known start_tcp_server start_component stops is_started is_true in refl)
  orchestrate_setup-IsFaithful udp kind (some relay) a =
      follow_answer-IsFaithful kind relay a a.peer
  orchestrate_setup-IsFaithful udp kind none a =
      setup_rest-IsFaithful kind false a empty_result refl refl
        (unfold IsFaithful known stops is_started is_true in refl)

-- A controller before its ports are set up.
pub record IsIdle (c : Controller) : Type 0 where
  pub receiver : c.has_receiver ≡ false
  pub keep_alive : c.has_keep_alive ≡ false
  pub server : c.has_server ≡ false
  pub tcp_server : c.has_tcp_server ≡ false
  pub tunnels : c.has_tunnels ≡ false

shutdown-apply_result :
    (r : Result) (c : Controller) → IsIdle c → shutdown (apply_result r c) ≡ known r
unfolding shutdown apply_result known keep_server is_started
shutdown-apply_result r c i =
    ground (arith, i.receiver, i.keep_alive, i.server, i.tcp_server, i.tunnels)

-- A controller that has not set up its ports, with or without a relay, over UDP or TCP, whatever the
-- relay, the video receiver's library and the control port answer: if the setup returns, then the
-- components that shutdown stops are those that the setup has started.
pub setup_ports-shutdown :
    (t : Transport) (kind : String) (a : Answers) (c : Controller) (x : Component)
    → IsIdle c
    → (setup_ports t kind a c).2 ≡ true
    → holds x (shutdown (setup_ports t kind a c).0) ≡ holds x (setup_ports t kind a c).1
unfolding setup_ports
setup_ports-shutdown t kind a c x i h =
    let r = (orchestrate_setup t kind (relay_config c) a).0 in
    let faithful : holds x r.started_components ≡ holds x (known r) =
      unfold IsFaithful in orchestrate_setup-IsFaithful x t kind (relay_config c) a in
    ground (arith, shutdown-apply_result r c i, faithful)
