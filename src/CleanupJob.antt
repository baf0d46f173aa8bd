-- ===== src/CleanupJob.antt =====
-- scheduler/internal/jobs/cleanup/cleanup.go: the job that releases the sandboxes that are too old,
-- once in every interval.
use k8s_sched_demo.Config.{Config}
use k8s_sched_demo.Scheduler.Cleanup.{cleanup_loop-Listing, Listing}
use k8s_sched_demo.Errors.{Error}
use k8s_sched_demo.Types.Ids.{SandboxId}
use k8s_sched_demo.Scheduler.{Sys, cleanup_expired_sandboxes, Service}
use k8s_sched_demo.Base.{refl, ◌++◌, ◌≤◌, ◌-◌, none, ◌∷◌, arith, ◌≡◌, some, [], Option, ℕ, List}

pub record Manager (R K : Type 0) : Type 0 where
  pub service : Service R K
  pub interval_secs : ℕ

-- The batch size is taken and not kept.
unfoldable pub new_manager : {R K : Type 0} → Service R K → ℕ → ℕ → Manager R K
new_manager service interval_secs batch_size = record {
  service = service;
  interval_secs = interval_secs;
}

-- `OnStart` of `ProvideManager` (module.go), up to the goroutine.
unfoldable pub provide_manager : {R K : Type 0} → Config → Service R K → Manager R K
unfolding new_manager
provide_manager cfg service = new_manager service cfg.cleanup_interval_secs cfg.cleanup_batch_size

-- What one tick meets: the second of the clock, and enough fuel for the pages of the listing.
pub record Tick : Type 0 where
  pub now : ℕ
  pub fuel : ℕ

module _ {R K : Type 0} (cm : Manager R K) where
  -- The `for { select { … } }` of the goroutine on the ticks that come before `Stop`; what a
  -- cleanup returns is logged only. `none` means that the fuel of a tick ran out.
  unfoldable pub run_cleanup_job : List Tick → Sys R K → Option (Sys R K)
  run_cleanup_job [] s = some s
  run_cleanup_job (tick ∷ ticks) s =
      elim (cleanup_expired_sandboxes cm.service tick.fuel tick.now s) [
        | none ↦ none
        | some (count, error, s') ↦ run_cleanup_job ticks s'
      ]

  -- The listings that the ticks see, each with enough fuel for its pages: the sandboxes of all of
  -- them, and the state at the end.
  pub data Listings : List Tick → Sys R K → List SandboxId → Sys R K → Type 0 where
    stopped : (s : Sys R K) → Listings [] s [] s
    ticked :
        (tick : Tick) (ticks : List Tick) (s s' end : Sys R K) (xs ys : List SandboxId)
        (e : Option Error) (n : ℕ)
        → Listing cm.service (tick.now - cm.service.sandbox_ttl) [] s xs e n s'
        → n ≤ tick.fuel
        → Listings ticks s' ys end
        → Listings (tick ∷ ticks) s (xs ++ ys) end

  -- A job whose runs each have enough fuel for the pages of their listing ends where these
  -- listings end.
  pub run_cleanup_job-Listings :
      {ticks : List Tick} {s end : Sys R K} {xs : List SandboxId}
      → Listings ticks s xs end
      → run_cleanup_job ticks s ≡ some end
  unfolding run_cleanup_job cleanup_expired_sandboxes
  run_cleanup_job-Listings (stopped s) = refl
  run_cleanup_job-Listings (ticked tick ticks s s' end xs ys e n l h ls) = ground (
    arith,
    cleanup_loop-Listing cm.service (tick.now - cm.service.sandbox_ttl) tick.fuel 0 l h,
    run_cleanup_job-Listings ls,
  )
