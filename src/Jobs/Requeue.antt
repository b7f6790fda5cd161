-- ===== src/Jobs/Requeue.antt =====
-- The limit on concurrent backups in internal/jobs/worker.go, for a job that has just been claimed.
use sigarda_panel.Common.{Bool, true, false}
use sigarda_panel.Jobs.Table.{Jobs}
use sigarda_panel.Jobs.Outside.{Outside, Effect, dispatch}

-- The effect is a call of the agent.
abbrev pub is_dispatch : Effect → Bool
is_dispatch (dispatch type payload) = true
is_dispatch _ = false
