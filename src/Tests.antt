-- ===== src/Tests.antt =====
-- Concrete inputs, and the theorems at them.
mod Data
mod Logs
mod Votes
mod Transfers
mod Refinements
mod Interleavings
mod Leaders
mod Replicas
mod Machines
mod Checks
mod Pools
mod Broadcasts
mod Nodes
mod Solo
mod Seeds
