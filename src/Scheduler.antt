-- ===== src/Scheduler.antt =====
-- scheduler/internal/scheduler/service.go: sandboxes are scheduled once for an idempotence key,
-- released, and cleaned up when they are too old.
pub mod Sorted
pub mod Deployed
pub mod Cleanup
pub mod Idempotency
pub mod Ended
pub mod Expired
use k8s_sched_demo.Persistence.Claim.{complete, is_timeout, drop, has_existing_sandbox}
use k8s_sched_demo.Persistence.Store.{is_sandbox_released, RedisStore, remove_sandbox_mapping}
use k8s_sched_demo.Kube.Interface.{K8sInterface}
use k8s_sched_demo.Errors.{format, ok, new, format_result, err, Error, Result}
use k8s_sched_demo.Types.Ids.{new_sandbox_id, SandboxId}
use k8s_sched_demo.Persistence.Idempotence.{claim_or_wait, IdempotenceStore}
use k8s_sched_demo.Persistence.Context.{Context}
use k8s_sched_demo.Kube.Events.{PodEvent}
use k8s_sched_demo.Base.{
  false, zero, true, ◌+◌, some, suc, ◌-◌, none, is_empty, [], if◌then◌else◌, Bool, ◌∷◌, Text,
  Option, ℕ, List,
}

-- The state that the services reach: the Redis server's and the cluster's.
pub record Sys (R K : Type 0) : Type 0 where
  pub redis : R
  pub kube : K

-- `Service`. Times are in seconds.
pub record Service (R K : Type 0) : Type 0 where
  pub idempotence_store : IdempotenceStore R
  pub k8s_client : K8sInterface K
  pub store : RedisStore R
  pub sandbox_ttl : ℕ

module _ {R K : Type 0} (svc : Service R K) where
  -- `claim_ctx` is the context with the 10 s timeout; `elapse` is what other clients do to the Redis
  -- server between two ticks of a wait. Every return runs the deferred `result.Drop`.
  unfoldable pub schedule_sandbox :
      (R → R) → Context → ℕ → ℕ → Text → Sys R K → Result SandboxId × Sys R K
  schedule_sandbox elapse claim_ctx nanos random key s =
      if is_empty key
      then (err (new "idempotence key cannot be empty"), s)
      else let (result, r₁) = claim_or_wait svc.idempotence_store elapse claim_ctx key s.redis in
        elim (has_existing_sandbox result) [
          | true ↦ (ok result.sandbox_id, record s { redis = (drop result r₁).1 })
          | false ↦ elim (is_timeout result) [
            | true ↦ (
              err (new "timeout waiting for idempotence claim"),
              record s { redis = (drop result r₁).1 },
            )
            | false ↦
                let (scheduled, k₁) = svc.k8s_client.schedule_sandbox nanos random s.kube in
                elim scheduled [
                  | err e ↦ (
                    err (format "failed to schedule" e),
                    record { redis = (drop result r₁).1; kube = k₁ },
                  )
                  | ok sandbox_id ↦
                      let (idempotence_error, result', r₂) = complete result sandbox_id r₁ in
                      (ok sandbox_id, record { redis = (drop result' r₂).1; kube = k₁ })
                ]
          ]
        ]

  -- Both stores are told, whatever the first answers; errors are logged only.
  unfoldable pub release_sandbox : SandboxId → Sys R K → Sys R K
  release_sandbox sandbox_id s =
      let (error_redis, r₁) = remove_sandbox_mapping svc.store sandbox_id s.redis in
      let (error_k8s, k₁) = svc.k8s_client.release_sandbox sandbox_id s.kube in
      record { redis = r₁; kube = k₁ }

  -- The event's type is not looked at.
  unfoldable pub handle_pod_event : PodEvent → Sys R K → Sys R K
  handle_pod_event event s = release_sandbox event.sandbox_id s

  -- The goroutine of `StartEventProcessing` on the events that the channel delivers before it is
  -- closed or the event context ends.
  unfoldable pub process_events : List PodEvent → Sys R K → Sys R K
  process_events [] s = s
  process_events (event ∷ events) s = process_events events (handle_pod_event event s)

  unfoldable pub is_sandbox_ready : SandboxId → Sys R K → Result Bool × Sys R K
  is_sandbox_ready sandbox_id s =
      if is_empty sandbox_id
      then (err (new "sandbox ID cannot be empty"), s)
      else let (ready, k₁) = svc.k8s_client.is_sandbox_ready sandbox_id s.kube in
        (format_result "failed to check if sandbox is ready" ready, record s { kube = k₁ })

  unfoldable pub ask_cluster_gone : SandboxId → Sys R K → Result Bool × Sys R K
  ask_cluster_gone sandbox_id s =
      let (gone, k₁) = svc.k8s_client.is_sandbox_gone sandbox_id s.kube in
      (format_result "failed to check if sandbox is gone" gone, record s { kube = k₁ })

  -- A sandbox that the store knows to be released is gone; otherwise the cluster is asked.
  unfoldable pub is_sandbox_gone : SandboxId → Sys R K → Result Bool × Sys R K
  unfolding ask_cluster_gone
  is_sandbox_gone sandbox_id s =
      let (released, r₁) = is_sandbox_released svc.store sandbox_id s.redis in
      elim released [
        | err e ↦ ask_cluster_gone sandbox_id (record s { redis = r₁ })
        | ok was_released ↦ elim was_released [
          | true ↦ (ok true, record s { redis = r₁ })
          | false ↦ ask_cluster_gone sandbox_id (record s { redis = r₁ })
        ]
      ]

  unfoldable pub wait_for_sandbox_ready : Context → SandboxId → Sys R K → Result Bool × Sys R K
  wait_for_sandbox_ready ctx sandbox_id s =
      let (ready, k₁) = svc.k8s_client.wait_for_sandbox_ready ctx sandbox_id s.kube in
      (format_result "failed to wait for sandbox to be ready" ready, record s { kube = k₁ })

  -- The pods of one page: a name that is no sandbox ID is skipped, any other is released and
  -- counted.
  unfoldable pub release_pods : List Text → ℕ → Sys R K → ℕ × Sys R K
  release_pods [] total s = (total, s)
  release_pods (pod_name ∷ names) total s = elim (new_sandbox_id pod_name) [
    | err e ↦ release_pods names total s
    | ok sandbox_id ↦ release_pods names (total + 1) (release_sandbox sandbox_id s)
  ]

  -- The loop over the pages; `none` means that the fuel ran out before the last page.
  unfoldable pub cleanup_loop : ℕ → ℕ → Text → ℕ → Sys R K → Option (ℕ × Option Error × Sys R K)
  cleanup_loop zero cutoff token total s = none
  cleanup_loop (suc fuel) cutoff token total s =
      let (page, k₁) = svc.k8s_client.get_pods_older_than cutoff token s.kube in
      elim page [
        | err e ↦ some (total, some (format "failed to get old pods" e), record s { kube = k₁ })
        | ok (names, next_token) ↦
            let (total', s') = release_pods names total (record s { kube = k₁ }) in
            elim (is_empty next_token) [
              | true ↦ some (total', none, s')
              | false ↦ cleanup_loop fuel cutoff next_token total' s'
            ]
      ]

  unfoldable pub cleanup_expired_sandboxes : ℕ → ℕ → Sys R K → Option (ℕ × Option Error × Sys R K)
  cleanup_expired_sandboxes fuel now s = cleanup_loop fuel (now - svc.sandbox_ttl) [] 0 s
