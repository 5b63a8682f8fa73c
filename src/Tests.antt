-- ===== src/Tests.antt =====
-- Concrete inputs for the theorems: a TCP SYN frame, its answer, and a flow table for two flows.
-- The caches are the reference implementation; whole numbers stand for floats.
mod Data
mod Packets
mod Flows
mod Rules
mod Engines
mod Captures
mod Links
mod Interface
mod Exports
mod Commands
mod Traffic
mod Sessions
