-- ===== src/System.antt =====
-- pkg/machine/machine.go: a machine with its queue: the mutation methods and the loop of processQueue.
mod Defs
mod Methods
pub mod Turns
pub mod Drain
pub mod Sound
pub mod Kept
pub mod Steps
pub mod Loop
pub mod Calls
pub mod Limit
pub mod Total
pub mod Idle
pub mod Check
unfoldable pub use Defs.*
unfoldable pub use Methods.*
