-- ===== src/Punch.antt =====
-- Two peers that find one another without the relay: v3xctrl_punch/rendezvouz.py, PunchPeer.py; and
-- the registration at the relay, v3xctrl_relay/Peer.py.
pub mod Rendezvous
pub mod PunchPeer
pub mod Registration
mod Examples
