-- ===== src/Tests.antt =====
-- Runs of the model on small inputs, and the theorems at them.
mod Data
mod Loopback
mod Clients
mod Traffic
mod Servers
mod Buffers
mod Packets
mod Channels
mod Slots
mod Sessions
mod Endpoints
mod Acks
mod Windows
mod Due
mod Generated
