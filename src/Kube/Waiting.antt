-- ===== src/Kube/Waiting.antt =====
-- A wait for a sandbox that becomes ready in time ends well
-- (scheduler/internal/k8sclient/client.go, `WaitForSandboxReady`).
use k8s_sched_demo.Persistence.Context.{Context}
use k8s_sched_demo.Errors.{err, ok, Error}
use k8s_sched_demo.Types.Ids.{SandboxId}
use k8s_sched_demo.Kube.Client.{
  is_sandbox_gone, wait_for_sandbox_ready, ready_loop, is_sandbox_ready, K8sClient,
}
use k8s_sched_demo.Base.{zero, suc, arith, true, false, ◌<◌, ◌≡◌, ℕ}

module _ {K : Type 0} (k : K8sClient K) (elapse : K → K) (x : SandboxId) where
  -- The polls of a loop from a state on find the sandbox ready after this many that do not: those
  -- find it not ready and not gone, or cannot tell.
  pub data BecomesReady : ℕ → K → Type 0 where
    ready_now : (s : K) → (is_sandbox_ready k x (elapse s)).0 ≡ ok true → BecomesReady 0 s
    unreadable :
        (n : ℕ) (s : K) (e : Error)
        → (is_sandbox_ready k x (elapse s)).0 ≡ err e
        → BecomesReady n (is_sandbox_ready k x (elapse s)).1
        → BecomesReady (suc n) s
    not_yet :
        (n : ℕ) (s : K)
        → (is_sandbox_ready k x (elapse s)).0 ≡ ok false
        → (is_sandbox_gone k x (is_sandbox_ready k x (elapse s)).1).0 ≡ ok false
        → BecomesReady n (is_sandbox_gone k x (is_sandbox_ready k x (elapse s)).1).1
        → BecomesReady (suc n) s
    unclear :
        (n : ℕ) (s : K) (e : Error)
        → (is_sandbox_ready k x (elapse s)).0 ≡ ok false
        → (is_sandbox_gone k x (is_sandbox_ready k x (elapse s)).1).0 ≡ err e
        → BecomesReady n (is_sandbox_gone k x (is_sandbox_ready k x (elapse s)).1).1
        → BecomesReady (suc n) s

  ready_loop-BecomesReady :
      (reason : Error) (rounds : ℕ) {n : ℕ} {s : K}
      → BecomesReady n s
      → n < rounds
      → (ready_loop k elapse reason rounds x s).0 ≡ ok true
  unfolding ready_loop
  ready_loop-BecomesReady reason zero b h = absurd (omega arith)
  ready_loop-BecomesReady reason (suc rounds) (ready_now s e) h = ground (arith, e)
  ready_loop-BecomesReady reason (suc rounds) (unreadable n s bad e b) h =
      ground (arith, e, ready_loop-BecomesReady reason rounds b)
  ready_loop-BecomesReady reason (suc rounds) (not_yet n s e there b) h =
      ground (arith, e, there, ready_loop-BecomesReady reason rounds b)
  ready_loop-BecomesReady reason (suc rounds) (unclear n s bad e there b) h =
      ground (arith, e, there, ready_loop-BecomesReady reason rounds b)

  -- The first look of WaitForSandboxReady finds the sandbox not ready. If its polls find it ready
  -- after fewer polls than the context allows that find it not ready and not gone or fail to tell,
  -- then WaitForSandboxReady answers true.
  pub wait-BecomesReady :
      (ctx : Context) (n : ℕ) (s : K)
      → (is_sandbox_ready k x s).0 ≡ ok false
      → BecomesReady n (is_sandbox_ready k x s).1
      → n < ctx.rounds
      → (wait_for_sandbox_ready k elapse ctx x s).0 ≡ ok true
  unfolding wait_for_sandbox_ready
  wait-BecomesReady ctx n s e b h =
      ground (arith, e, ready_loop-BecomesReady ctx.reason ctx.rounds b h)
