-- ===== src/Runtime2.antt =====
-- The status of a goroutine in rgoffi/go/gocruntime/runtime2.h.
use challenges.Common.{ℕ, ◌+◌}

pub data GStatus : Type 0 where
  idle : GStatus
  runnable : GStatus
  running : GStatus
  syscall : GStatus
  waiting : GStatus
  moribund_unused : GStatus
  dead : GStatus
  enqueue_unused : GStatus
  copy_stack : GStatus
  preempted : GStatus
  scan_runnable : GStatus
  scan_running : GStatus
  scan_syscall : GStatus
  scan_waiting : GStatus
  scan_preempted : GStatus

-- G_SCAN
abbrev pub g_scan : ℕ
g_scan = 0x1000

-- The number of a status.
unfoldable pub status_value : GStatus → ℕ
status_value idle = 0
status_value runnable = 1
status_value running = 2
status_value syscall = 3
status_value waiting = 4
status_value moribund_unused = 5
status_value dead = 6
status_value enqueue_unused = 7
status_value copy_stack = 8
status_value preempted = 9
status_value scan_runnable = g_scan + 1
status_value scan_running = g_scan + 2
status_value scan_syscall = g_scan + 3
status_value scan_waiting = g_scan + 4
status_value scan_preempted = g_scan + 9
