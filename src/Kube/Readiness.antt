-- ===== src/Kube/Readiness.antt =====
-- When a sandbox counts as ready, and how a wait for it ends
-- (scheduler/internal/k8sclient/client.go).
use k8s_sched_demo.Kube.Api.{ContainerStatus, PodPhase, Pod}
use k8s_sched_demo.Persistence.Context.{Context}
use k8s_sched_demo.Errors.{Result-cases, format, new, err, Error, ok, Result}
use k8s_sched_demo.Types.Ids.{sandbox_with_prefix, SandboxId}
use k8s_sched_demo.Kube.Client.{
  is_sandbox_gone, all_ready, wait_for_sandbox_ready, ready_loop, is_sandbox_ready, K8sClient,
}
use k8s_sched_demo.Base.{
  [], inl, Bool-cases, ◌∷◌, inr, List, All, refl, false, arith, zero, suc, ◌↔◌, ℕ, true, Bool, ◌≡◌,
}

module _ {K : Type 0} (k : K8sClient K) where
  all_ready_iff : (cs : List ContainerStatus) → (all_ready cs ≡ true) ↔ All (λ c. c.ready ≡ true) cs
  all_ready_iff [] = ((λ h. tt), (λ h. refl))
  all_ready_iff (c ∷ cs) =
      let (to_all, of_all) = all_ready_iff cs in
      elim (Bool-cases c.ready) [
        | inl e ↦ ((λ h. (e, to_all (ground (arith, h, e)))), λ h. rw e (of_all h.1))
        | inr e ↦ ((λ h. absurd (ground (arith, h, e))), λ h. absurd (ground (arith, h.0, e)))
      ]

  -- IsSandboxReady answers true, without an error, exactly when the cluster finds the pod of the
  -- sandbox, the phase of the pod is running, and the status of each of its containers says that
  -- the container is ready.
  pub is_sandbox_ready_iff :
      (x : SandboxId) (s : K)
      → ((is_sandbox_ready k x s).0 ≡ ok true) ↔ (
          (pod : Pod) × ((k.clientset.get_pod k.namespace (sandbox_with_prefix x) s).0 ≡ ok pod)
          × (pod.status.phase ≡ PodPhase.running)
          × All (λ c. c.ready ≡ true) pod.status.container_statuses)
  unfolding is_sandbox_ready
  is_sandbox_ready_iff x s =
      elim (Result-cases (k.clientset.get_pod k.namespace (sandbox_with_prefix x) s).0) [
        | inr (e, bad) ↦ ground (arith, bad)
        | inl (pod, e) ↦
            let (to_all, of_all) = all_ready_iff pod.status.container_statuses in
            (
              (λ h. (pod, e, ground (arith, h, e), to_all (ground (arith, h, e)))),
              λ (found, e', up, ready). ground (arith, e, e', up, of_all),
            )
      ]

  module _ (elapse : K → K) (x : SandboxId) where
    -- A wait's result: a sandbox that the last look found ready, or an error.
    abbrev pub EndsReady : Result Bool × K → Type 0
    EndsReady (ok ready, s') = (ready ≡ true) × ((s : K) × (is_sandbox_ready k x s ≡ (ok true, s')))
    EndsReady (err e, s') = Unit {0}

    -- A look at the cluster, with what follows it when it does not find the sandbox ready.
    look-EndsReady :
        (look : Result Bool × K) (failed : Error → Result Bool × K) (waits : Result Bool × K)
        → (s : K) × (is_sandbox_ready k x s ≡ look)
        → ((e : Error) → EndsReady (failed e))
        → EndsReady waits
        → EndsReady (elim look.0 [
          | err e ↦ failed e
          | ok is_ready ↦ elim is_ready [ true ↦ (ok true, look.1) | false ↦ waits ]
        ])
    look-EndsReady (err e, s') failed waits found h₁ h₂ = h₁ e
    look-EndsReady (ok true, s') failed waits found h₁ h₂ = (refl, found)
    look-EndsReady (ok false, s') failed waits found h₁ h₂ = h₂

    gone-EndsReady :
        (gone : Result Bool) (waits : Result Bool × K) (e : Error) (s : K)
        → EndsReady waits
        → EndsReady (elim gone [
          | err e' ↦ waits
          | ok is_gone ↦ elim is_gone [ true ↦ (err e, s) | false ↦ waits ]
        ])
    gone-EndsReady (err e') waits e s h = h
    gone-EndsReady (ok true) waits e s h = tt
    gone-EndsReady (ok false) waits e s h = h

    ready_loop-EndsReady :
        (reason : Error) (n : ℕ) (s : K) → EndsReady (ready_loop k elapse reason n x s)
    unfolding ready_loop
    ready_loop-EndsReady reason zero s = tt
    ready_loop-EndsReady reason (suc n) s =
        let s₁ = (is_sandbox_ready k x (elapse s)).1 in
        let s₂ = (is_sandbox_gone k x s₁).1 in
        look-EndsReady (is_sandbox_ready k x (elapse s)) (λ e. ready_loop k elapse reason n x s₁) _
          (elapse s, refl) (λ e. ready_loop-EndsReady reason n s₁)
          (gone-EndsReady (is_sandbox_gone k x s₁).0 (ready_loop k elapse reason n x s₂)
            (new "sandbox is gone while waiting for it to be ready") s₂
            (ready_loop-EndsReady reason n s₂))

    -- WaitForSandboxReady never answers false: it answers true, and then its last look at the
    -- cluster found the sandbox ready, or it returns an error.
    pub wait-EndsReady :
        (ctx : Context) (s : K) → EndsReady (wait_for_sandbox_ready k elapse ctx x s)
    unfolding wait_for_sandbox_ready
    wait-EndsReady ctx s =
        look-EndsReady (is_sandbox_ready k x s)
          (λ e. (err (format "failed to check if sandbox is ready" e), (is_sandbox_ready k x s).1))
          _ (s, refl) (λ e. tt)
          (ready_loop-EndsReady ctx.reason ctx.rounds (is_sandbox_ready k x s).1)
