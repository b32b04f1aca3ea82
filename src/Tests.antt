-- ===== src/Tests.antt =====
-- Concrete channels and actors, on which the theorems are applied.
mod Channels
mod Contexts
mod Crons
mod Messages
mod Nodes
mod Sessions
mod Serving
mod Addresses
mod Responses
mod Codecs
