-- ===== src/Tests.antt =====
-- Concrete runs of the models, at which the hypotheses of the theorems hold.
mod Shards
mod Frames
mod Logs
mod Services
mod Buffers
mod Servers
mod Calls
mod Clients
mod Transports
