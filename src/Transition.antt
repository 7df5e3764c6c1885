-- ===== src/Transition.antt =====
-- pkg/machine/transition.go and relations.go: one mutation, from the states that it calls to the
-- machine that it leaves.
mod Defs
pub mod Emit
pub mod Run
pub mod Start
pub mod Vetoes
pub mod Refused
pub mod Kept
pub mod Called
pub mod Partial
pub mod Listing
pub mod WellFormed
pub mod NoHandlers
pub mod Setup
pub mod Sound
pub mod Runs
pub mod Total
pub mod Auto
unfoldable pub use Defs.*
