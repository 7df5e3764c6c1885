-- ===== src/Machine.antt =====
-- pkg/machine/machine.go: the state that a transition reads and writes (schema, active states,
-- clocks), its queries, and setActiveStates. The locks are not modelled: each operation is one
-- step. `disposing` is read at the start of an operation and kept through it.
mod Defs
pub mod Checks
pub mod Ticks
pub mod Invariant
pub mod Predict
pub mod Past
unfoldable pub use Defs.*
