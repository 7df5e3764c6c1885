-- ===== src/Verify/Names.antt =====
-- machine.go, verifyStates: which names a machine has afterwards.
use asyncmachine_go.Base.{string_eq}
use asyncmachine_go.Machine.{Machine}
