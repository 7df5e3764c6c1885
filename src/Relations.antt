-- ===== src/Relations.antt =====
-- pkg/machine/relations.go: the default relation resolver. A call of the resolver reads the
-- machine's schema, the transition's mutation and the states before it; they are the record
-- `Context`. Logging and the steps kept for debugging are left out.
mod Defs
pub mod Sorting
pub mod Add
pub mod Implied
pub mod Require
pub mod Block
pub mod Target
pub mod Complete
pub mod Resolved
pub use Defs.{MutationType, Context, is_remove, add_start, AddLoop}
unfoldable pub use Defs.{
  add_states, add_skips, add_pass, add_loop, parse_add, state_blocked_by, get_missing_requires,
  require_pass, require_loop, parse_require, block_pass, removed_by, survivors, resolve,
}
