-- ===== src/Tests.antt =====
-- Runs of the definitions on small inputs, and the theorems applied to them.
mod Fixtures
mod Transitions
mod Emission
mod Resolver
mod Clocks
mod Queues
mod Systems
mod Calls
mod Graphs
mod Schemas
mod Subscribed
