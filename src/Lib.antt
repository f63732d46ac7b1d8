-- ===== src/Lib.antt =====
-- The control link of a remote-controlled vehicle: the UDP relay between a streamer (the vehicle), a
-- viewer and spectators, the control channel that runs over it, and the video path's timestamps.
--
-- The parts and their files:
--
-- Relay (src/v3xctrl_relay). Peers announce themselves with a role and a port type. PacketRelay keeps
-- sessions by identifier, a forwarding table by source address and the TCP targets by address; the
-- session that has all four ports is written into the table, which every later packet is looked up in.
--   Relay/Types, Relay/Session   Role.py, custom_types.py: PeerEntry, SpectatorEntry, Session
--   Relay/Store                  SessionStore.py with the table of helper.py: create, update, delete
--   Relay/State                  the fields of PacketRelay, the targets of ForwardTarget.py
--   Relay/Register               register_peer, register_tcp_peer, _send_peer_info, heartbeats
--   Relay/Mappings               _update_mappings, _setup_spectator_mappings and their removal
--   Relay/Forward                forward_packet
--   Relay/Cleanup                cleanup_expired_mappings and its four steps
--   Relay/Server                 RelayServer.py: what becomes of one datagram; connection tests
--   Relay/Acceptor               TCPAcceptor.py: a TCP connection, which forwards framed packets or
--                                only waits for its end
--   Relay/Routing, Overwrite, Delivery, Spectators, Departures, Ready, Expiry, Dispatch,
--   Store/Unique, Acceptor/Streams
--                                proofs about these
--   Relay/Bot                    discord_bot: the commands for identifiers, the test drives;
--                                Bot/Deliveries has the proofs
-- Punch (src/v3xctrl_punch, src/v3xctrl_relay). How two peers learn of one another: by the rendezvous
-- server and a handshake through their routers, or by registering at the relay.
--   Punch/Rendezvous             rendezvouz.py: announcements, matches, expired sessions
--   Punch/PunchPeer              PunchPeer.py: registration and handshake of a socket
--   Punch/Registration           Peer.py: the registration loop and the results of all ports
--   Rendezvous/Matching, Expiry, Entries, Runs, PunchPeer/Handshake, Registration/Noise
--                                proofs about these
-- Tcp (src/v3xctrl_tcp). UDP over TCP.
--   Tcp/Framing                  framing.py: the messages with a length; Framing/RoundTrip, Sequence
--                                and Truncated have the proofs
--   Tcp/Tunnel                   TcpTunnel.py, and TcpServer.py of src/v3xctrl_ui: retries, handshake
--                                and both directions; Tunnel/Prefix has the proofs
-- Vehicle (src/v3xctrl_control/apps/streamer.py). The vehicle's program, between the control channel's
-- client and the servos.
--   Vehicle/Pulse                from axis values to pulse widths; Pulse/Bounds has the proofs
--   Vehicle/App                  the handlers of messages, commands and disconnects, the parking of the
--                                servos; App/Safety and App/Once have the proofs
-- Control (src/v3xctrl_control).
--   Control/Message              message/*.py: the kinds of messages and their timestamps
--   Control/Receiver             UDPReceiver.py: is_valid_message and the queue of accepted messages
--   Control/Transmitter          UDPTransmitter.py: the control buffer, the queue and one round
--   Control/Peer                 Base.py, Client.py, Server.py: connection states and the handshake
--   Control/Commands             Server.py: commands with retries, error paths, acknowledgments and
--                                callbacks
--   Control/Timing               TimingController.py of src/v3xctrl_ui: the control intervals
-- Video (src/v3xctrl_gst, src/v3xctrl_helper).
--   Video/Sei, Video/Injector    sei.py, SEIInjector.py: capture times inside the H.264 stream
--   Video/Qp                     QPManager.py: the encoder's minimal QP from the keyframes' sizes
--   Video/Timer                  PipelineTimer.py: the latency of the pipeline's steps
--   Video/Window                 SlidingWindowAverage.py: which samples the window holds
--   Video/Recording              RecordingManager.py: the recording branch of the pipeline
-- Telemetry (src/v3xctrl_telemetry, src/v3xctrl_ui/core). The streamer packs flags into bytes, and the
-- viewer reads them in its context and in its parser.
--   Telemetry/Flags              dataclasses.py: the flag bytes and their reading
--   Telemetry/Context, Parser    TelemetryContext.py, TelemetryParser.py
--   Telemetry/Agreement          proofs about the three together
--   Telemetry/Sampler            v3xctrl_control/Telemetry.py: the rounds of the collecting thread
--   Telemetry/Battery            INA.py, BatteryTelemetry.py: the power sensor, the battery's state
-- Viewer (src/v3xctrl_ui).
--   Viewer/Frames                network/video/Receiver.py: the deques between decoder and display
--   Viewer/Settings              core/Settings.py: the merge of the loaded settings, access by key
--   Viewer/Calibrator            menu/calibration/GamepadCalibrator.py: the stages of a calibration
--   Viewer/Coordinator           network/NetworkCoordinator.py: gates, deferred callbacks of commands;
--                                Coordinator/Dues and Answers put it together with Control/Commands
--   Viewer/SettingsController    core/controllers/SettingsController.py: apply at once, or restart
--   Viewer/Setup                 network/NetworkSetup.py, NetworkController.py: what a connection starts
--                                and what shutdown stops; Setup/Shutdown has the proofs
--   Viewer/Gamepads              core/controllers/input/GamepadController.py: the active gamepad and
--                                its axes; Gamepads/Active and Axes have the proofs
--   Viewer/Inputs                menu/input: BaseInput.py, TextInput.py, NumberInput.py
-- Base holds what the parts share: Boolean tests, lists, dictionaries as association lists in the
-- order of insertion, sets as lists without repetition, and bytes.
--
-- How the code is modelled. An object is a record and a method a function that returns the record
-- that it leaves; a method keeps its name, without the underscore in front. What a call meets outside
-- is an argument: the clock, the answers of the session store, whether a write to a socket fails, the
-- segments that a TCP stream arrives in. What is written to a socket is appended to a list. A call
-- reads the clock once. The axis values of a gamepad are scaled to natural numbers. Methods that hold a
-- lock are single steps, and the threads are sequences of such steps; two calls do not overlap. Times
-- are natural numbers of one unit each, microseconds in Relay/Cleanup, and the source's `now - t > d`
-- is written `d + t < now`. Pulse widths and axis values are exact quotients where the source divides
-- floats. A caught exception is a constructor or `none`.
--
-- Fuel. The loop of _recv_exact for n bytes has n + 1 rounds, as each but the last brings a byte. The
-- loops of parse_sei_nal have as many rounds as the data has bytes, as each drops at least four. The
-- loop of a TCP connection takes one round more than there are packets, that of a peer which is only
-- monitored one more than there are bytes, and the loop of a tunnel's incoming direction one more than
-- there are packets. All other loops go over a list.
--
-- Not modelled: sockets, threads and asyncio; the msgpack encoding, GStreamer, pygame and Discord,
-- which are other people's; the statistics that RelayServer.py writes to its command socket; Streamer.py,
-- which builds the pipeline; UdpVideoProxy.py and the video decoders; the viewer's drawing, its menus
-- but the text fields, its keys, whose handlers integrate floats; the web interface, the Android
-- viewer; floating-point averages; the power of the expo, which is a parameter; the ctypes calls of
-- SEIInjector.py; get_testdrive_by_user, a parameter of Relay/Bot; calls of RecordingManager that
-- overlap; texts of logs.
pub mod Base
pub mod Tcp
pub mod Video
pub mod Relay
pub mod Punch
pub mod Control
pub mod Telemetry
pub mod Vehicle
pub mod Viewer
