-- ===== src/Persistence/Context.antt =====
-- A Go context (package `context`) as the waiting loops of the scheduler see it.
use k8s_sched_demo.Base.{ℕ, ◌≡◌, true, Option}
use k8s_sched_demo.Errors.{Error, is_context_error}

-- `done` is ctx.Err() when the call starts. Of the ticks of a polling loop, `rounds` come before
-- ctx.Done() is ready; ctx.Err() is `reason` from then on. The clock and the caller choose both.
pub record Context : Type 0 where
  pub done : Option Error
  pub rounds : ℕ
  pub reason : Error

-- A context ends by its deadline or by cancellation.
abbrev pub IsContext : Context → Type 0
IsContext ctx = is_context_error ctx.reason ≡ true
