-- ===== src/Relay.antt =====
-- The packet relay: src/v3xctrl_relay. `Types` and `Session` are custom_types.py and Role.py,
-- `Store` is SessionStore.py, `State` the fields of PacketRelay with the targets of ForwardTarget.py,
-- and `Mappings`, `Register`, `Forward` and `Cleanup` the methods of PacketRelay.py. `Server` is
-- RelayServer.py, `Acceptor` TCPAcceptor.py, and `Bot` discord_bot with its test drives. `Dispatch`, `Routing`, `Overwrite`, `Delivery`,
-- `Spectators`, `Departures`, `Ready` and `Expiry` are about these, and `Examples` has them at
-- concrete inputs.
pub mod Types
pub mod Session
pub mod Store
pub mod Bot
pub mod State
pub mod Mappings
pub mod Register
pub mod Forward
pub mod Cleanup
pub mod Server
pub mod Acceptor
pub mod Dispatch
pub mod Routing
pub mod Overwrite
pub mod Delivery
pub mod Spectators
pub mod Departures
pub mod Ready
pub mod Expiry
mod Examples
