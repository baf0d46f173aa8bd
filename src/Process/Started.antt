-- ===== src/Process/Started.antt =====
-- The scheduler after its start, whatever order its functions were called in
-- (scheduler/cmd/server/main.go).
use k8s_sched_demo.Process.{Process}
use k8s_sched_demo.Config.{Config}
