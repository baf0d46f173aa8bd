-- ===== src/Pool.antt =====
-- scheduler/internal/sandboxpool/service.go: a pool of sandboxes that are started ahead of their
-- use, first pending and then ready.
pub mod Bounds
pub mod Check
pub mod Job
pub mod Rounds
pub mod Fifo
pub mod Promotion
pub mod Filling
pub mod Members
pub mod Exclusive
pub mod Counts
use k8s_sched_demo.Types.Ids.{SandboxId}
use k8s_sched_demo.Persistence.Context.{Context}
use k8s_sched_demo.Errors.{format_error, format, value_or, ok, err, Result, Error}
use k8s_sched_demo.Persistence.PoolStore.{
  add_pending_sandbox, add_ready_sandbox, remove_pending_sandbox, get_ready_sandbox,
  get_pending_sandboxes, count_pending_sandboxes, count_ready_sandboxes, PoolStore,
}
use k8s_sched_demo.Base.{
  ltb, leb, ◌==◌, ◌%◌, zero, some, none, [], ◌∷◌, ◌/◌, ◌+◌, ◌++◌, if◌then◌else◌, ◌-◌, suc, codes,
  List, ℕ, Text, Option, Bool,
}
use k8s_sched_demo.Scheduler.{Service, Sys, schedule_sandbox, is_sandbox_ready}

-- The settings of config.Config that the pool reads.
pub record PoolConfig : Type 0 where
  pub pool_enabled : Bool
  pub pool_size : ℕ
  pub pool_max_pending : ℕ

pub record PoolService (R K : Type 0) : Type 0 where
  pub pool_store : PoolStore R
  pub scheduler_service : Service R K
  pub config : PoolConfig

-- What one round of `createPoolSandbox` reads of its surroundings: the clock for the key and for
-- the new ID, the random byte, the context of the claim, and the second of the addition.
pub record Moment : Type 0 where
  pub key_nanos : ℕ
  pub id_nanos : ℕ
  pub random : ℕ
  pub claim_ctx : Context
  pub now : ℕ

-- %d of a number below 10^20.
unfoldable pub decimal_loop : ℕ → ℕ → Text → Text
decimal_loop zero n result = result
decimal_loop (suc fuel) n result =
    let rest = decimal_loop fuel (n / 10) ((48 + n % 10) ∷ result) in
    if ltb n 10 then (48 + n % 10) ∷ result else rest

unfoldable pub pool_key : ℕ → Text
unfolding decimal_loop
pool_key nanos = codes "pool:" ++ decimal_loop 20 nanos []

module _ {R K : Type 0} (svc : PoolService R K) (elapse : R → R) where
  unfoldable pub create_pool_sandbox : Moment → Sys R K → Option Error × Sys R K
  create_pool_sandbox at s =
      let (scheduled, s₁) =
        schedule_sandbox svc.scheduler_service elapse at.claim_ctx at.id_nanos at.random
          (pool_key at.key_nanos) s in
      elim scheduled [
        | err e ↦ (some (format "failed to schedule sandbox" e), s₁)
        | ok sandbox_id ↦
            let (error, r₂) = add_pending_sandbox svc.pool_store at.now sandbox_id s₁.redis in
            (format_error "failed to add to pending pool" error, record s₁ { redis = r₂ })
      ]

  -- The loop of `maintainPool`: `n` rounds from index `i` on; a failed round is logged only.
  unfoldable pub create_loop : (ℕ → Moment) → ℕ → ℕ → Sys R K → Sys R K
  create_loop at zero i s = s
  create_loop at (suc n) i s = create_loop at n (i + 1) (create_pool_sandbox (at i) s).1

  -- One pending sandbox that is found ready leaves the pending set and enters the ready set.
  unfoldable pub move_to_ready : ℕ → SandboxId → Sys R K → Sys R K
  move_to_ready now sandbox_id s =
      let (error₁, r₁) = remove_pending_sandbox svc.pool_store sandbox_id s.redis in
      elim error₁ [
        | some e ↦ record s { redis = r₁ }
        | none ↦
            let (error₂, r₂) = add_ready_sandbox svc.pool_store now sandbox_id r₁ in
            record s { redis = r₂ }
      ]

  unfoldable pub check_loop : ℕ → List SandboxId → Sys R K → Sys R K
  check_loop now [] s = s
  check_loop now (sandbox_id ∷ sandbox_ids) s =
      let (ready, s₁) = is_sandbox_ready svc.scheduler_service sandbox_id s in
      check_loop now sandbox_ids (elim ready [
        | err e ↦ s₁
        | ok is_ready ↦ if is_ready then move_to_ready now sandbox_id s₁ else s₁
      ])

  unfoldable pub check_pending_sandboxes : ℕ → Sys R K → Option Error × Sys R K
  check_pending_sandboxes now s =
      let (pending, r₁) = get_pending_sandboxes svc.pool_store s.redis in
      elim pending [
        | err e ↦ (some (format "failed to get pending sandboxes" e), record s { redis = r₁ })
        | ok sandbox_ids ↦ (none, check_loop now sandbox_ids (record s { redis = r₁ }))
      ]

  -- How many sandboxes `maintainPool` sets out to create, by the two counts. The source computes
  -- `needed` on signed integers and stops where it is not positive; here it stops at 0.
  unfoldable pub to_create : ℕ → ℕ → ℕ
  to_create ready_count pending_count =
      let needed = svc.config.pool_size - ready_count - pending_count in
      if needed == 0
      then 0
      else if leb svc.config.pool_max_pending pending_count
      then 0
      else if ltb needed (svc.config.pool_max_pending - pending_count)
      then needed
      else svc.config.pool_max_pending - pending_count

  -- `maintainPool` from the second count on. A count that fails is taken as 0.
  unfoldable pub top_up : (ℕ → Moment) → Sys R K → Sys R K
  unfolding to_create
  top_up at s =
      let (ready, r₁) = count_ready_sandboxes svc.pool_store s.redis in
      let (pending, r₂) = count_pending_sandboxes svc.pool_store r₁ in
      create_loop at (to_create (value_or 0 ready) (value_or 0 pending)) 0 (record s { redis = r₂ })

  -- `locked` says whether another run holds the mutex when TryLock is called.
  unfoldable pub maintain_pool : Bool → ℕ → (ℕ → Moment) → Sys R K → Option Error × Sys R K
  unfolding check_pending_sandboxes
  maintain_pool locked now at s =
      if locked
      then (none, s)
      else let (ready, r₁) = count_ready_sandboxes svc.pool_store s.redis in
        elim ready [
          | err e ↦ (some (format "failed to get ready sandboxes count" e), record s { redis = r₁ })
          | ok ready_count ↦
              let (pending, r₂) = count_pending_sandboxes svc.pool_store r₁ in
              elim pending [
                | err e ↦ (
                  some (format "failed to get pending sandboxes count" e),
                  record s { redis = r₂ },
                )
                | ok pending_count ↦ (
                  none,
                  top_up at (
                      if ltb 0 pending_count
                      then (check_pending_sandboxes now (record s { redis = r₂ })).1
                      else record s { redis = r₂ }),
                )
              ]
        ]

  -- `GetSandbox`: one is taken from the ready set, whatever the key; maintenance is started in the
  -- background (`trigger_maintenance`), whether or not the pool is enabled.
  unfoldable pub get_sandbox : Text → Sys R K → Result SandboxId × Sys R K
  get_sandbox idempotence_key s =
      let (result, r₁) = get_ready_sandbox svc.pool_store s.redis in
      (result, record s { redis = r₁ })

  -- The error is logged only.
  unfoldable pub trigger_maintenance : Bool → ℕ → (ℕ → Moment) → Sys R K → Sys R K
  trigger_maintenance locked now at s = (maintain_pool locked now at s).1
