-- ===== src/Examples.antt =====
-- Tests of the definitions, and theorems at a concrete input.
mod Fixtures
mod Deliveries
mod Chains
mod State
mod Endpoints
mod Rounds
mod Starts
mod Refreshes
mod Secrets
mod Shutdowns
mod Sockets
mod Loads
mod Answers
mod Commands
mod Reconnects
