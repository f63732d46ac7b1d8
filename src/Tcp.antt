-- ===== src/Tcp.antt =====
-- UDP over TCP: src/v3xctrl_tcp. `Framing` is framing.py and `Tunnel` is TcpTunnel.py.
pub mod Framing
pub mod Tunnel
mod Examples
