-- ===== src/Advanced/Network.antt =====
-- S2-advanced/examples/network: packet and socket programs.
pub mod SkLookup
pub mod SocketFilter
pub mod Tc
pub mod Xdp
pub mod Agreement
