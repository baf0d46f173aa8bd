-- ===== src/Persistence/Idempotence/Completes.antt =====
-- A caller that waits for another one gets its sandbox
-- (scheduler/internal/persistence/idempotence_impl.go, `awaitIdempotenceCompletion`), on a Redis
-- server that answers.
use k8s_sched_demo.Persistence.Idempotence.Claims.{taken_lem}
use k8s_sched_demo.Persistence.Context.{Context}
use k8s_sched_demo.Errors.{ok, Error}
use k8s_sched_demo.Persistence.Idempotence.Effects.{
  mark_pending-db, get_sandbox_id-db, get_sandbox_id-reply, pending, recorded, lookup_check,
}
use k8s_sched_demo.Types.Ids.{SandboxId}
use k8s_sched_demo.Persistence.Redis.{IsServed}
use k8s_sched_demo.Persistence.Idempotence.{
  claim_result, claim_or_wait, missing, found, mark_pending_creation, poll_loop, get_sandbox_id,
  form_pending_key, await_idempotence_completion, IdempotenceStore,
}
use k8s_sched_demo.Base.{zero, false, suc, some, arith, ◌<◌, none, ◌≡◌, Text, ℕ}

module _ {R : Type 0} (r : IdempotenceStore R) (served : IsServed r.client) (elapse : R → R)
    (k : Text) (x : SandboxId) where
  open served use {db}

  -- The state after one poll that finds nothing but the marker.
  abbrev pub polled : R → R
  polled s = (r.client.exists (form_pending_key r k) (get_sandbox_id r k (elapse s)).1).1

  -- The polls of a loop from a state on find the sandbox after this many that find the marker only.
  pub data Completes : ℕ → R → Type 0 where
    completed_now : (s : R) → lookup_check r k (db (elapse s)) ≡ found x → Completes 0 s
    still_pending :
        (n : ℕ) (s : R) (v : Text)
        → lookup_check r k (db (elapse s)) ≡ missing
        → pending r k (db (elapse s)) ≡ some v
        → Completes n (polled s)
        → Completes (suc n) s

  poll_loop-Completes :
      (reason : Error) (rounds : ℕ) {n : ℕ} {s : R}
      → Completes n s
      → n < rounds
      → (poll_loop r elapse reason rounds k s).0 ≡ ok x
  unfolding poll_loop
  poll_loop-Completes reason zero c h = absurd (omega arith)
  poll_loop-Completes reason (suc rounds) (completed_now s e) h =
      ground (arith, e, get_sandbox_id-reply r served k (elapse s))
  poll_loop-Completes reason (suc rounds) (still_pending n s v e held c) h = ground (
    arith,
    e,
    held,
    get_sandbox_id-reply r served k (elapse s),
    get_sandbox_id-db r served k (elapse s),
    served.exists_reply (form_pending_key r k) (get_sandbox_id r k (elapse s)).1,
    poll_loop-Completes reason rounds c,
  )

  -- The state in which a caller that did not get the marker begins to poll.
  abbrev pub before_polls : R → R
  before_polls s = (get_sandbox_id r k (mark_pending_creation r k (get_sandbox_id r k s).1).1).1

  -- On a server that answers, a call of ClaimOrWait with a live context finds no sandbox under the
  -- key and its marker set. If its polls find a sandbox with a valid ID after fewer polls that find
  -- none, with the marker still set, than the context allows, then it answers with that sandbox,
  -- with no claim and no error.
  pub claim_or_wait-Completes :
      (ctx : Context) (n : ℕ) (v : Text) (s : R)
      → ctx.done ≡ none
      → recorded r k (db s) ≡ none
      → pending r k (db s) ≡ some v
      → Completes n (before_polls s)
      → n < ctx.rounds
      → (claim_or_wait r elapse ctx k s).0 ≡ claim_result r false x none k
  unfolding await_idempotence_completion
  claim_or_wait-Completes ctx n v s live empty held c h =
      let s₁ = (get_sandbox_id r k s).1 in
      let s₂ = (mark_pending_creation r k s₁).1 in
      ground (
        arith,
        taken_lem r served elapse ctx k s v live (rw empty) held,
        get_sandbox_id-db r served k s,
        mark_pending-db r served k s₁,
        get_sandbox_id-reply r served k s₂,
        poll_loop-Completes ctx.reason ctx.rounds c h,
      )
