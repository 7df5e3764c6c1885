-- ===== src/Queue/Scheduled.antt =====
-- machine.go: a mutation that Add or Remove has queued is one that WillBe or WillBeRemoved finds.
use asyncmachine_go.Base.{int_eq}
use asyncmachine_go.Machine.{Machine}
use asyncmachine_go.Queue.{Queue}
