-- ===== src/Tests.antt =====
-- The theorems at concrete inputs, and runs of the definitions.
mod Numbers
mod Queues
mod Packets
mod Buffers
mod Windows
mod Conns
mod Sockets
mod Hosts
mod Services
mod Lives
