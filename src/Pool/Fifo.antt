-- ===== src/Pool/Fifo.antt =====
-- The order in which the pool hands its sandboxes out (scheduler/internal/sandboxpool/service.go,
-- `GetSandbox`), on a Redis server that answers for its sorted sets.
use k8s_sched_demo.Persistence.PoolStore.{
  ready_sandboxes_key, read_popped, get_ready_sandbox, get_key,
}
use k8s_sched_demo.Types.Ids.{new_sandbox_id, SandboxId}
use k8s_sched_demo.Scheduler.{Sys}
use k8s_sched_demo.Persistence.Redis.{rest, first, IsSorted}
use k8s_sched_demo.Errors.{pool_empty, ok, err, Result}
use k8s_sched_demo.Pool.{get_sandbox, PoolService}
use k8s_sched_demo.Base.{text_eq_refl, arith, refl, zero, ◌∷◌, ap, ◌≡◌, [], suc, Text, List, ℕ}

-- What calls of `GetSandbox` answer that take the entries of a queue from the front.
abbrev pub taken_from : ℕ → List Text → List (Result SandboxId)
taken_from zero members = []
taken_from (suc n) [] = err pool_empty ∷ taken_from n []
taken_from (suc n) (member ∷ members) = new_sandbox_id member ∷ taken_from n members

module _ {R K : Type 0} (svc : PoolService R K) (elapse : R → R) {sorted : R → Text → List Text}
    (sorted_sets : IsSorted svc.pool_store.client sorted) where
  -- Some calls, one after the other.
  unfoldable pub get_sandboxes : ℕ → Text → Sys R K → List (Result SandboxId)
  get_sandboxes zero key s = []
  get_sandboxes (suc n) key s =
      let (result, s') = get_sandbox svc elapse key s in result ∷ get_sandboxes n key s'

  abbrev pub ready_members : Sys R K → List Text
  ready_members s = sorted s.redis (get_key svc.pool_store ready_sandboxes_key)

  pub get_sandbox-pops :
      (key : Text) (s : Sys R K)
      → let (result, s') = get_sandbox svc elapse key s in
        (result ≡ read_popped (ok (first (ready_members s))))
        × (ready_members s' ≡ rest (ready_members s))
  unfolding get_sandbox get_ready_sandbox
  get_sandbox-pops key s =
      let q = get_key svc.pool_store ready_sandboxes_key in
      ground (
        arith,
        sorted_sets.pop_reply q s.redis,
        ap (λ f. f q) (sorted_sets.pop_sorted q s.redis),
        text_eq_refl q,
      )

  taken_from-step :
      (n : ℕ) (members : List Text)
      → taken_from (suc n) members ≡ read_popped (ok (first members)) ∷ taken_from n (rest members)
  taken_from-step n [] = refl
  taken_from-step n (member ∷ members) = refl

  -- On a server that answers for its sorted sets, calls of GetSandbox, one directly after the
  -- other, answer as a queue does that holds the ready members from the lowest score up: each call
  -- takes the front one and parses it, and a call that finds the queue empty answers with the error
  -- of an empty pool.
  pub get_sandboxes-taken_from :
      (n : ℕ) (key : Text) (s : Sys R K) → get_sandboxes n key s ≡ taken_from n (ready_members s)
  unfolding get_sandboxes
  get_sandboxes-taken_from zero key s = refl
  get_sandboxes-taken_from (suc n) key s =
      let (result, s') = get_sandbox svc elapse key s in
      let (popped, left) = get_sandbox-pops key s in
      rw (taken_from-step n (ready_members s), ← popped, ← left)
        (ap (◌∷◌ result) (get_sandboxes-taken_from n key s'))
