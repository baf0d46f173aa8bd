-- ===== src/Persistence/Idempotence/Sorted.antt =====
-- The idempotence store never touches a sorted set, on a Redis server that answers.
use k8s_sched_demo.Persistence.Idempotence.Effects.{
  mark_pending-db, complete_pending-db, get_sandbox_id-db, drop_pending-db,
}
use k8s_sched_demo.Types.Ids.{SandboxId}
use k8s_sched_demo.Persistence.Context.{Context}
use k8s_sched_demo.Errors.{Error}
use k8s_sched_demo.Persistence.Claim.{ClaimResult, drop, complete}
use k8s_sched_demo.Persistence.Redis.{Db, put, apply_all, IsServed}
use k8s_sched_demo.Persistence.Idempotence.{
  form_pending_key, complete_pending_creation, sink, mark_pending_creation, get_sandbox_id,
  drop_pending_creation, complete_commands, poll_loop, claim_or_wait, await_idempotence_completion,
  IdempotenceStore,
}
use k8s_sched_demo.Base.{
  codes, zero, none, ◌∙◌, suc, refl, ℕ, some, arith, ap, Option, List, Text, ◌≡◌,
}

module _ {R : Type 0} (r : IdempotenceStore R) (served : IsServed r.client) (elapse : R → R) where
  open served use {db}

  abbrev sets : R → Text → List Text
  sets s = (db s).sorted

  put-sorted : (k : Text) (v : Option Text) (d : Db) → (put k v d).sorted ≡ d.sorted
  unfolding put
  put-sorted k v d = refl

  complete_commands-sorted :
      (k : Text) (x : SandboxId) (d : Db)
      → (apply_all (complete_commands r k x) d).sorted ≡ d.sorted
  unfolding apply_all complete_commands
  complete_commands-sorted k x d = refl

  get-sorted : (k : Text) (s : R) → sets (get_sandbox_id r k s).1 ≡ sets s
  get-sorted k s = ap (λ d. d.sorted) (get_sandbox_id-db r served k s)

  exists-sorted : (k : Text) (s : R) → sets (r.client.exists k s).1 ≡ sets s
  exists-sorted k s = ap (λ d. d.sorted) (served.exists_db k s)

  mark-sorted : (k : Text) (s : R) → sets (mark_pending_creation r k s).1 ≡ sets s
  mark-sorted k s = ground (
    arith,
    mark_pending-db r served k s,
    put-sorted (form_pending_key r k) (some (codes "1")) (db s),
  )

  module _ (calm : (s : R) → sets (elapse s) ≡ sets s) where
    poll_loop-sorted :
        (reason : Error) (n : ℕ) (k : Text) (s : R)
        → sets (poll_loop r elapse reason n k s).1 ≡ sets s
    unfolding poll_loop
    poll_loop-sorted reason zero k s = calm s
    poll_loop-sorted reason (suc n) k s =
        let s₁ = (get_sandbox_id r k (elapse s)).1 in
        let s₂ = (r.client.exists (form_pending_key r k) s₁).1 in
        ground (
          arith,
          calm s,
          get-sorted k (elapse s),
          exists-sorted (form_pending_key r k) s₁,
          poll_loop-sorted reason n k s₂,
        )

    await-sorted :
        (ctx : Context) (k : Text) (s : R)
        → sets (await_idempotence_completion r elapse ctx k s).1 ≡ sets s
    unfolding await_idempotence_completion
    await-sorted ctx k s =
        ground
          (arith, get-sorted k s, poll_loop-sorted ctx.reason ctx.rounds k (get_sandbox_id r k s).1)

    -- A claim is made through the store itself, and leaves the sorted sets alone.
    pub claim_or_wait-sorted :
        (ctx : Context) (k : Text) (s : R)
        → ((claim_or_wait r elapse ctx k s).0.store ≡ some (sink r))
          × (sets (claim_or_wait r elapse ctx k s).1 ≡ sets s)
    unfolding claim_or_wait
    claim_or_wait-sorted ctx k s =
        let s₁ = (get_sandbox_id r k s).1 in
        let s₂ = (mark_pending_creation r k s₁).1 in
        ground (arith, get-sorted k s, mark-sorted k s₁, await-sorted ctx k s₂)

  complete_pending-sorted :
      (k : Text) (x : SandboxId) (s : R) → sets (complete_pending_creation r k x s).1 ≡ sets s
  complete_pending-sorted k x s =
      ap (λ d. d.sorted) (complete_pending-db r served k x s) ∙ complete_commands-sorted k x (db s)

  drop_pending-sorted : (k : Text) (s : R) → sets (drop_pending_creation r k s).1 ≡ sets s
  drop_pending-sorted k s =
      ap (λ d. d.sorted) (drop_pending-db r served k s)
      ∙ put-sorted (form_pending_key r k) none (db s)

  pub complete-sorted :
      (result : ClaimResult R) (x : SandboxId) (s : R)
      → result.store ≡ some (sink r)
      → ((complete result x s).1.store ≡ some (sink r)) × (sets (complete result x s).2 ≡ sets s)
  unfolding complete sink
  complete-sorted result x s e = ground (arith, complete_pending-sorted result.idempotence_key x s)

  pub drop-sorted :
      (result : ClaimResult R) (s : R)
      → result.store ≡ some (sink r)
      → sets (drop result s).1 ≡ sets s
  unfolding drop sink
  drop-sorted result s e = ground (arith, drop_pending-sorted result.idempotence_key s)
