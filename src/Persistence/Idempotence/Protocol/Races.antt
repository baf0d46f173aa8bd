-- ===== src/Persistence/Idempotence/Protocol/Races.antt =====
-- The calls of `ClaimOrWait` (scheduler/internal/persistence/idempotence_impl.go) against the moves
-- of the protocol, and an order of moves in which a key is claimed although it is completed.
use k8s_sched_demo.Persistence.Idempotence.Claims.{no_claim_while_pending}
use k8s_sched_demo.Persistence.Idempotence.Protocol.Invariant.{run_moves-marked_iff_held}
use k8s_sched_demo.Persistence.Context.{Context}
use k8s_sched_demo.Persistence.Claim.{complete}
use k8s_sched_demo.Persistence.Idempotence.Effects.{
  complete_commands-pending, complete_commands-recorded, complete_pending-db, mark_pending-reply,
  get_sandbox_id-reply, get_sandbox_id-db, complete_pending-error, pending, recorded,
}
use k8s_sched_demo.Types.Ids.{SandboxId}
use k8s_sched_demo.Base.{
  inr, inl, Option-cases, false, ℕ, List, text_eq_refl, some, [], ◌∷◌, arith, none, ◌≡◌, Text,
}
use k8s_sched_demo.Persistence.Redis.{IsServed}
use k8s_sched_demo.Persistence.Idempotence.{claim_or_wait, sink, IdempotenceStore}
use k8s_sched_demo.Persistence.Idempotence.Protocol.{
  Move, start, step, run_moves, System, act, look, mark, finish, idle, asking, holding,
}

module _ {R : Type 0} (r : IdempotenceStore R) (served : IsServed r.client) where
  open served use {db}

  -- After any order of the commands of several callers that start when no marker is set, on a
  -- server that answers, a call of ClaimOrWait for a key whose claim is held gets no claim,
  -- whatever its context and whatever other clients do while it waits.
  pub holder-excludes :
      (elapse : R → R) (moves : List (ℕ × Move)) (ctx : Context) (k : Text) (i : ℕ) (s : R)
      → ((l : Text) → pending r l (db s) ≡ none)
      → (run_moves r moves (start s)).callers i ≡ holding k
      → (claim_or_wait r elapse ctx k (run_moves r moves (start s)).server).0.claimed ≡ false
  holder-excludes elapse moves ctx k i s free held =
      let σ = run_moves r moves (start s) in
      elim (Option-cases (pending r k (db σ.server))) [
        | inl e ↦
            absurd (ground (arith, (run_moves-marked_iff_held r served moves k s free).1 (i, held)))
        | inr (v, e) ↦ no_claim_while_pending r served elapse ctx k v σ.server e
      ]

  module _ (k : Text) (x : SandboxId) (s : R) (empty : recorded r k (db s) ≡ none)
      (free : pending r k (db s) ≡ none) where
    look_missing : (s' : R) → recorded r k (db s') ≡ none → (act r (look k) idle s').0 ≡ asking k
    unfolding act
    look_missing s' e = ground (arith, get_sandbox_id-reply r served k s')

    look_db : (s' : R) → db (act r (look k) idle s').1 ≡ db s'
    unfolding act
    look_db s' = get_sandbox_id-db r served k s'

    mark_free : (s' : R) → pending r k (db s') ≡ none → (act r mark (asking k) s').0 ≡ holding k
    unfolding act
    mark_free s' e = ground (arith, mark_pending-reply r served k s')

    finish_lem :
        (s' : R)
        → let s'' = (act r (finish x) (holding k) s').1 in
          (recorded r k (db s'') ≡ some x) × (pending r k (db s'') ≡ none)
    unfolding act complete sink
    finish_lem s' = ground (
      arith,
      complete_pending-error r served k x s',
      complete_pending-db r served k x s',
      complete_commands-recorded r k k x (db s'),
      complete_commands-pending r k k x (db s'),
      text_eq_refl k,
    )

    abbrev pub before_mark : System R
    before_mark = run_moves r ((0, look k) ∷ (1, look k) ∷ (1, mark) ∷ (1, finish x) ∷ []) (start s)

    -- On a server that answers, with no sandbox and no marker under a key, two callers look the key
    -- up and find nothing; the second claims it and completes it with x. The first then gets the
    -- claim of the key as well, although x is recorded under it.
    pub late_mark :
        (recorded r k (db before_mark.server) ≡ some x)
        × ((step r 0 mark before_mark).callers 0 ≡ holding k)
    unfolding step run_moves
    late_mark =
        let s₁ = (act r (look k) idle s).1 in
        let s₂ = (act r (look k) idle s₁).1 in
        let s₃ = (act r mark (asking k) s₂).1 in
        let s₄ = (act r (finish x) (holding k) s₃).1 in
        ground (
          arith,
          look_missing s empty,
          look_db s,
          look_missing s₁,
          look_db s₁,
          mark_free s₂,
          finish_lem s₃,
          mark_free s₄,
        )
