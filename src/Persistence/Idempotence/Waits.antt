-- ===== src/Persistence/Idempotence/Waits.antt =====
-- How a wait for another caller ends (scheduler/internal/persistence/idempotence_impl.go,
-- `awaitIdempotenceCompletion`), on a Redis server that answers.
use k8s_sched_demo.Persistence.Idempotence.Claims.{taken_lem}
use k8s_sched_demo.Persistence.Claim.{is_timeout}
use k8s_sched_demo.Persistence.Context.{IsContext, Context}
use k8s_sched_demo.Persistence.Idempotence.Effects.{
  mark_pending-db, recorded, pending, get_sandbox_id-db, get_sandbox_id-reply, lookup_check,
}
use k8s_sched_demo.Types.Ids.{SandboxId}
use k8s_sched_demo.Errors.{wrap, concurrent_creation_failed, err, ok, Result, Error}
use k8s_sched_demo.Persistence.Redis.{IsServed}
use k8s_sched_demo.Persistence.Idempotence.{
  mark_pending_creation, claim_or_wait, await_idempotence_completion, failed, missing, found,
  form_pending_key, get_sandbox_id, poll_loop, IdempotenceStore,
}
use k8s_sched_demo.Base.{
  [], false, true, some, refl, zero, none, ◌⊎◌, arith, suc, inl, ℕ, Text, ◌≡◌,
}

module _ {R : Type 0} (r : IdempotenceStore R) (served : IsServed r.client) (elapse : R → R) where
  open served use {db}

  -- What the server shows when a wait ends with a result: the sandbox is recorded; or the context
  -- has ended; or the recorded text is no sandbox ID; or nothing is recorded and the marker is gone.
  abbrev pub Waited : Error → Text → Result SandboxId × R → Type 0
  Waited reason k (ok x, s') = lookup_check r k (db s') ≡ found x
  Waited reason k (err e, s') =
      (e ≡ reason)
      ⊎ ((e ≡ concurrent_creation_failed)
          × (pending r k (db s') ≡ none)
          × (lookup_check r k (db s') ≡ missing))
      ⊎ ((cause : Error) × (e ≡ wrap "error checking idempotence key" cause)
          × (lookup_check r k (db s') ≡ failed cause))

  poll_loop-Waited :
      (reason : Error) (n : ℕ) (k : Text) (s : R)
      → Waited reason k (poll_loop r elapse reason n k s)
  unfolding poll_loop
  poll_loop-Waited reason zero k s = inl refl
  poll_loop-Waited reason (suc n) k s =
      let s₁ = (get_sandbox_id r k (elapse s)).1 in
      let s₂ = (r.client.exists (form_pending_key r k) s₁).1 in
      ground (
        arith,
        get_sandbox_id-reply r served k (elapse s),
        get_sandbox_id-db r served k (elapse s),
        served.exists_reply (form_pending_key r k) s₁,
        served.exists_db (form_pending_key r k) s₁,
        poll_loop-Waited reason n k s₂,
      )

  -- On a Redis server that answers, and however other clients act while it waits, a wait ends as
  -- the server then shows: with a sandbox only if that sandbox is recorded under the key; with
  -- ErrConcurrentCreationFailed only if nothing is recorded and the marker is gone; with a parse
  -- error only if the recorded text is no sandbox ID; and otherwise with the error of the context.
  pub await-Waited :
      (ctx : Context) (k : Text) (s : R)
      → Waited ctx.reason k (await_idempotence_completion r elapse ctx k s)
  unfolding await_idempotence_completion
  await-Waited ctx k s = ground (
    arith,
    get_sandbox_id-reply r served k s,
    get_sandbox_id-db r served k s,
    poll_loop-Waited ctx.reason ctx.rounds k (get_sandbox_id r k s).1,
  )

  -- While the server keeps a marker and no sandbox, the loop runs until the context ends.
  poll_loop_idle :
      (quiet : (s : R) → db (elapse s) ≡ db s)
      → (reason : Error) (n : ℕ) (k v : Text) (s : R) → recorded r k (db s) ≡ none
      → pending r k (db s) ≡ some v
      → (poll_loop r elapse reason n k s).0 ≡ err reason
  unfolding poll_loop
  poll_loop_idle quiet reason zero k v s empty held = refl
  poll_loop_idle quiet reason (suc n) k v s empty held =
      let s₁ = (get_sandbox_id r k (elapse s)).1 in
      let s₂ = (r.client.exists (form_pending_key r k) s₁).1 in
      ground (
        arith,
        quiet s,
        get_sandbox_id-reply r served k (elapse s),
        get_sandbox_id-db r served k (elapse s),
        served.exists_reply (form_pending_key r k) s₁,
        served.exists_db (form_pending_key r k) s₁,
        poll_loop_idle quiet reason n k v s₂,
      )

  -- If nobody completes or drops the pending creation and nothing else that the server shows
  -- changes, a caller that waits for it gives up when its context, live at first, ends by its
  -- deadline or by cancellation, and its result is a timeout with no claim and no sandbox.
  pub claim_times_out :
      (quiet : (s : R) → db (elapse s) ≡ db s)
      → (ctx : Context) (k v : Text) (s : R) → IsContext ctx
      → ctx.done ≡ none
      → recorded r k (db s) ≡ none
      → pending r k (db s) ≡ some v
      → let result = (claim_or_wait r elapse ctx k s).0 in
        (is_timeout result ≡ true) × (result.claimed ≡ false) × (result.sandbox_id ≡ [])
  unfolding await_idempotence_completion
  claim_times_out quiet ctx k v s ends live empty held =
      let s₁ = (get_sandbox_id r k s).1 in
      let s₂ = (mark_pending_creation r k s₁).1 in
      ground (
        arith,
        taken_lem r served elapse ctx k s v live (rw empty) held,
        get_sandbox_id-db r served k s,
        mark_pending-db r served k s₁,
        get_sandbox_id-reply r served k s₂,
        get_sandbox_id-db r served k s₂,
        poll_loop_idle quiet ctx.reason ctx.rounds k v (get_sandbox_id r k s₂).1,
      )
