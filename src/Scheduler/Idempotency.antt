-- ===== src/Scheduler/Idempotency.antt =====
-- One sandbox for an idempotence key (scheduler/internal/scheduler/service.go, `ScheduleSandbox`),
-- on a Redis server that answers.
use k8s_sched_demo.Persistence.Idempotence.Completion.{drop_claim, complete_claim, unclaimed_inert}
use k8s_sched_demo.Persistence.Idempotence.Waits.{claim_times_out}
use k8s_sched_demo.Persistence.Idempotence.Claims.{claim_free_key, claim_recorded_key}
use k8s_sched_demo.Persistence.Idempotence.{claim_or_wait}
use k8s_sched_demo.Persistence.Idempotence.Effects.{pending}
use k8s_sched_demo.Persistence.Idempotence.Effects.{recorded}
use k8s_sched_demo.Types.Ids.{IsSandboxId, SandboxId}
use k8s_sched_demo.Errors.{new, format, ok, err, Error}
use k8s_sched_demo.Persistence.Context.{IsContext, Context}
use k8s_sched_demo.Scheduler.{schedule_sandbox}
use k8s_sched_demo.Persistence.Redis.{IsServed}
use k8s_sched_demo.Scheduler.{Sys, Service}
use k8s_sched_demo.Base.{text_eq_refl, arith, ◌∙◌, some, false, is_empty, none, Text, ℕ, ◌≡◌}

module _ {R K : Type 0} (svc : Service R K) (served : IsServed svc.idempotence_store.client)
    (elapse : R → R) where
  open served use {db}

  -- ScheduleSandbox is called with a live context on a non-empty key with no sandbox and no marker,
  -- and the pod is created as x: the call returns x, the cluster is what the creation left, x is
  -- recorded under the key and the marker is gone.
  pub schedule_fresh :
      (ctx : Context) (nanos random : ℕ) (key : Text) (x : SandboxId) (s : Sys R K) (k₁ : K)
      → ctx.done ≡ none
      → is_empty key ≡ false
      → recorded svc.idempotence_store key (db s.redis) ≡ none
      → pending svc.idempotence_store key (db s.redis) ≡ none
      → svc.k8s_client.schedule_sandbox nanos random s.kube ≡ (ok x, k₁)
      → let (result, s') = schedule_sandbox svc elapse ctx nanos random key s in
        (result ≡ ok x)
        × (s'.kube ≡ k₁)
        × (recorded svc.idempotence_store key (db s'.redis) ≡ some x)
        × (pending svc.idempotence_store key (db s'.redis) ≡ none)
  unfolding schedule_sandbox
  schedule_fresh ctx nanos random key x s k₁ live named empty free created =
      let r₁ = (claim_or_wait svc.idempotence_store elapse ctx key s.redis).1 in
      ground (
        arith,
        text_eq_refl key,
        claim_free_key svc.idempotence_store served elapse ctx key key s.redis live empty free,
        complete_claim svc.idempotence_store served key key x x r₁,
      )

  -- A sandbox is recorded under the non-empty key, with an ID that is read back as it is written,
  -- and the context is live: ScheduleSandbox returns it, and neither the cluster nor anything that
  -- Redis shows changes.
  pub schedule_recorded :
      (ctx : Context) (nanos random : ℕ) (key : Text) (x : SandboxId) (s : Sys R K)
      → ctx.done ≡ none
      → is_empty key ≡ false
      → IsSandboxId x
      → recorded svc.idempotence_store key (db s.redis) ≡ some x
      → let (result, s') = schedule_sandbox svc elapse ctx nanos random key s in
        (result ≡ ok x) × (s'.kube ≡ s.kube) × (db s'.redis ≡ db s.redis)
  unfolding schedule_sandbox
  schedule_recorded ctx nanos random key x s live named xi there =
      let claim = claim_or_wait svc.idempotence_store elapse ctx key s.redis in
      ground (
        arith,
        xi.valid,
        claim_recorded_key svc.idempotence_store served elapse ctx key x s.redis live xi there,
        unclaimed_inert svc.idempotence_store served claim.0 x claim.1,
      )

  -- On a Redis server that answers, ScheduleSandbox is called with a live context on a non-empty
  -- key with no sandbox and no marker, and the pod cannot be created: the call fails, and the key
  -- is left with no marker and no sandbox.
  pub schedule_failed :
      (ctx : Context) (nanos random : ℕ) (key : Text) (e : Error) (s : Sys R K) (k₁ : K)
      → ctx.done ≡ none
      → is_empty key ≡ false
      → recorded svc.idempotence_store key (db s.redis) ≡ none
      → pending svc.idempotence_store key (db s.redis) ≡ none
      → svc.k8s_client.schedule_sandbox nanos random s.kube ≡ (err e, k₁)
      → let (result, s') = schedule_sandbox svc elapse ctx nanos random key s in
        (result ≡ err (format "failed to schedule" e))
        × (recorded svc.idempotence_store key (db s'.redis) ≡ none)
        × (pending svc.idempotence_store key (db s'.redis) ≡ none)
  unfolding schedule_sandbox
  schedule_failed ctx nanos random key e s k₁ live named empty free refused =
      let r₁ = (claim_or_wait svc.idempotence_store elapse ctx key s.redis).1 in
      ground (
        arith,
        text_eq_refl key,
        claim_free_key svc.idempotence_store served elapse ctx key key s.redis live empty free,
        drop_claim svc.idempotence_store served key key r₁,
      )

  -- Another caller holds the claim of the non-empty key, and what the server shows does not change
  -- while ScheduleSandbox waits: the call fails with a timeout when its context, live at first,
  -- ends by its deadline or by cancellation, and the cluster is not touched.
  pub schedule_times_out :
      (quiet : (r : R) → db (elapse r) ≡ db r)
      → (ctx : Context) (nanos random : ℕ) (key v : Text) (s : Sys R K) → IsContext ctx
      → ctx.done ≡ none
      → is_empty key ≡ false
      → recorded svc.idempotence_store key (db s.redis) ≡ none
      → pending svc.idempotence_store key (db s.redis) ≡ some v
      → let (result, s') = schedule_sandbox svc elapse ctx nanos random key s in
        (result ≡ err (new "timeout waiting for idempotence claim")) × (s'.kube ≡ s.kube)
  unfolding schedule_sandbox
  schedule_times_out quiet ctx nanos random key v s ends live named empty held = ground (
    arith,
    claim_times_out svc.idempotence_store served elapse quiet ctx key v s.redis ends live empty
        held,
  )

  -- On a Redis server that answers, two calls of ScheduleSandbox with the same non-empty key and
  -- live contexts, the first on a key with no sandbox and no marker whose pod is created as x, an
  -- ID that is read back as it is written, and the second with any clock: both return x, and the
  -- second leaves the cluster as the first left it.
  pub schedule_twice :
      (ctx ctx' : Context) (nanos nanos' random random' : ℕ) (key : Text) (x : SandboxId)
      (s : Sys R K) (k₁ : K)
      → ctx.done ≡ none
      → ctx'.done ≡ none
      → is_empty key ≡ false
      → IsSandboxId x
      → recorded svc.idempotence_store key (db s.redis) ≡ none
      → pending svc.idempotence_store key (db s.redis) ≡ none
      → svc.k8s_client.schedule_sandbox nanos random s.kube ≡ (ok x, k₁)
      → let first = schedule_sandbox svc elapse ctx nanos random key s in
        let second = schedule_sandbox svc elapse ctx' nanos' random' key first.1 in
        (first.0 ≡ ok x) × (second.0 ≡ ok x) × (second.1.kube ≡ k₁)
  schedule_twice ctx ctx' nanos nanos' random random' key x s k₁ live live' named xi empty free
        created =
      let first = schedule_fresh ctx nanos random key x s k₁ live named empty free created in
      let second =
        schedule_recorded ctx' nanos' random' key x
          (schedule_sandbox svc elapse ctx nanos random key s).1 live' named xi first.2 in
      (first.0, second.0, second.1 ∙ first.1)
