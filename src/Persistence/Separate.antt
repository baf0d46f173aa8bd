-- ===== src/Persistence/Separate.antt =====
-- The project-sandbox mapping and the idempotence keys share one Redis database and one prefix
-- (scheduler/internal/persistence/module.go, redis.go, idempotence_impl.go): neither store touches
-- what the other reads, on a Redis server that answers.
use k8s_sched_demo.Persistence.Claim.{drop, complete}
use k8s_sched_demo.Errors.{err, Result-cases, Error}
use k8s_sched_demo.Persistence.Store.Effects.{
  released-reply, find_project-reply, get_project_sandbox-reply, remove-db, find_project-db,
  set_project_sandbox-db,
}
use k8s_sched_demo.Persistence.Idempotence.Protocol.{
  Caller, act, Move, look, mark, poll, probe, finish, give_up, idle, asking, waiting, holding,
}
use k8s_sched_demo.Persistence.Store.Refinement.{assign, release, Change, perform}
use k8s_sched_demo.Types.Ids.{SandboxId, ProjectId}
use k8s_sched_demo.Base.{
  none, codes, some, refl, inr, inl, text_eq-append, false, [], ◌∷◌, text_eq, arith, ◌≡◌, Option,
  Text,
}
use k8s_sched_demo.Persistence.Redis.{IsServed, apply, apply_all, put, Db}
use k8s_sched_demo.Persistence.Idempotence.{
  sink, mark_pending_creation, get_sandbox_id, form_sandbox_idempotence_key, form_pending_key,
  form_key, complete_commands, IdempotenceStore,
}
use k8s_sched_demo.Persistence.Idempotence.Effects.{
  drop_pending-db, complete_pending-db, mark_pending-reply, get_sandbox_id-reply, mark_pending-db,
  get_sandbox_id-db, recorded, pending,
}
use k8s_sched_demo.Persistence.Store.{
  is_sandbox_released, get_project_sandbox, find_project_for_sandbox, remove_sandbox_mapping,
  form_released_key, form_sandbox_project_key, set_commands, remove_commands,
  form_project_sandbox_key, RedisStore,
}

module _ {R : Type 0} (r : RedisStore R) where
  -- The idempotence store beside a mapping store.
  abbrev pub beside : IdempotenceStore R
  beside = record { client = r.client; key_prefix = r.key_prefix }

  -- No key of the mapping is a result or marker key.
  mapping-idempotence :
      (p : ProjectId) (x : SandboxId) (k : Text)
      → (text_eq (form_project_sandbox_key r p) (form_key beside k) ≡ false)
        × (text_eq (form_sandbox_project_key r x) (form_key beside k) ≡ false)
        × (text_eq (form_released_key r x) (form_key beside k) ≡ false)
        × (text_eq (form_project_sandbox_key r p) (form_pending_key beside k) ≡ false)
        × (text_eq (form_sandbox_project_key r x) (form_pending_key beside k) ≡ false)
        × (text_eq (form_released_key r x) (form_pending_key beside k) ≡ false)
  unfolding form_project_sandbox_key form_sandbox_project_key form_released_key form_key
      form_pending_key text_eq
  mapping-idempotence p x k = (
    rw text_eq-append,
    rw text_eq-append,
    rw text_eq-append,
    rw text_eq-append,
    rw text_eq-append,
    rw text_eq-append,
  )

  -- No key of the idempotence store is one that the mapping reads.
  idempotence-mapping :
      (k : Text) (z x : SandboxId) (p : ProjectId)
      → (text_eq (form_key beside k) (form_project_sandbox_key r p) ≡ false)
        × (text_eq (form_key beside k) (form_sandbox_project_key r x) ≡ false)
        × (text_eq (form_key beside k) (form_released_key r x) ≡ false)
        × (text_eq (form_pending_key beside k) (form_project_sandbox_key r p) ≡ false)
        × (text_eq (form_pending_key beside k) (form_sandbox_project_key r x) ≡ false)
        × (text_eq (form_pending_key beside k) (form_released_key r x) ≡ false)
        × (text_eq (form_sandbox_idempotence_key beside z) (form_project_sandbox_key r p) ≡ false)
        × (text_eq (form_sandbox_idempotence_key beside z) (form_sandbox_project_key r x) ≡ false)
        × (text_eq (form_sandbox_idempotence_key beside z) (form_released_key r x) ≡ false)
  unfolding form_project_sandbox_key form_sandbox_project_key form_released_key form_key
      form_pending_key form_sandbox_idempotence_key text_eq
  idempotence-mapping k z x p = (
    rw text_eq-append,
    rw text_eq-append,
    rw text_eq-append,
    rw text_eq-append,
    rw text_eq-append,
    rw text_eq-append,
    rw text_eq-append,
    rw text_eq-append,
    rw text_eq-append,
  )

  -- Two states of the server agree on what the idempotence store, or the mapping, reads.
  abbrev SameClaims : Db → Db → Text → Type 0
  SameClaims d d' k =
      (recorded beside k d' ≡ recorded beside k d) × (pending beside k d' ≡ pending beside k d)

  abbrev SameMapping : Db → Db → ProjectId → SandboxId → Type 0
  SameMapping d d' p x =
      (d'.value (form_project_sandbox_key r p) ≡ d.value (form_project_sandbox_key r p))
      × (d'.value (form_sandbox_project_key r x) ≡ d.value (form_sandbox_project_key r x))
      × (d'.value (form_released_key r x) ≡ d.value (form_released_key r x))

  set-SameClaims :
      (p : ProjectId) (x : SandboxId) (k : Text) (d : Db)
      → SameClaims d (apply_all (set_commands r p x) d) k
  unfolding set_commands apply_all apply put
  set-SameClaims p x k d = ground (arith, mapping-idempotence p x k)

  remove-SameClaims :
      (p : ProjectId) (x : SandboxId) (k : Text) (d : Db)
      → SameClaims d (apply_all (remove_commands r p x) d) k
  unfolding remove_commands apply_all apply put
  remove-SameClaims [] x k d = ground (arith, mapping-idempotence [] x k)
  remove-SameClaims (c ∷ p) x k d = ground (arith, mapping-idempotence (c ∷ p) x k)

  complete-SameMapping :
      (k : Text) (z x : SandboxId) (p : ProjectId) (d : Db)
      → SameMapping d (apply_all (complete_commands beside k z) d) p x
  unfolding complete_commands apply_all apply put
  complete-SameMapping k z x p d = ground (arith, idempotence-mapping k z x p)

  put-SameMapping :
      (k : Text) (v : Option Text) (x : SandboxId) (p : ProjectId) (d : Db)
      → SameMapping d (put (form_pending_key beside k) v d) p x
  unfolding put
  put-SameMapping k v x p d = ground (arith, idempotence-mapping k x x p)

module _ {R : Type 0} (r : RedisStore R) (served : IsServed r.client) where
  open served use {db}

  failed_remove-db :
      (x : SandboxId) (e : Error) (s : R)
      → (find_project_for_sandbox r x s).0 ≡ err e
      → db (remove_sandbox_mapping r x s).1 ≡ db s
  unfolding remove_sandbox_mapping
  failed_remove-db x e s failed = ground (arith, failed, find_project-db r served x s)

  perform-SameClaims :
      (c : Change) (k : Text) (s : R) → SameClaims r (db s) (db (perform r c s).1) k
  unfolding perform
  perform-SameClaims (assign p x) k s =
      rw (set_project_sandbox-db r served p x s) (set-SameClaims r p x k (db s))
  perform-SameClaims (release x) k s = elim (Result-cases (find_project_for_sandbox r x s).0) [
    | inl (p, e) ↦ rw (remove-db r served p x s e) (remove-SameClaims r p x k (db s))
    | inr (e, failed) ↦ rw (failed_remove-db x e s failed) (refl, refl)
  ]

  act-SameMapping :
      (move : Move) (c : Caller) (s : R) (p : ProjectId) (x : SandboxId)
      → SameMapping r (db s) (db (act (beside r) move c s).1) p x
  unfolding act complete drop sink
  act-SameMapping (look k) idle s p x = ground (arith, get_sandbox_id-db (beside r) served k s)
  act-SameMapping mark (asking k) s p x = ground (
    arith,
    mark_pending-db (beside r) served k s,
    put-SameMapping r k (some (codes "1")) x p (db s),
  )
  act-SameMapping poll (waiting k) s p x = ground (arith, get_sandbox_id-db (beside r) served k s)
  act-SameMapping probe (waiting k) s p x =
      ground (arith, served.exists_db (form_pending_key (beside r) k) s)
  act-SameMapping (finish z) (holding k) s p x =
      ground
        (arith, complete_pending-db (beside r) served k z s, complete-SameMapping r k z x p (db s))
  act-SameMapping give_up (holding k) s p x =
      ground (arith, drop_pending-db (beside r) served k s, put-SameMapping r k none x p (db s))
  act-SameMapping move c s p x = (refl, refl, refl)

  -- On a server that answers, where the mapping store and the idempotence store share the client
  -- and the prefix: no SetProjectSandbox or RemoveSandboxMapping changes what GetSandboxID or
  -- MarkPendingCreation answers, and no step of a claim changes what GetProjectSandbox,
  -- FindProjectForSandbox or IsSandboxReleased answers.
  pub stores_separate :
      (c : Change) (move : Move) (caller : Caller) (k : Text) (p : ProjectId) (x : SandboxId)
      (s : R)
      → let s₁ = (perform r c s).1 in
        let s₂ = (act (beside r) move caller s).1 in
        ((get_sandbox_id (beside r) k s₁).0 ≡ (get_sandbox_id (beside r) k s).0)
        × ((mark_pending_creation (beside r) k s₁).0 ≡ (mark_pending_creation (beside r) k s).0)
        × ((get_project_sandbox r p s₂).0 ≡ (get_project_sandbox r p s).0)
        × ((find_project_for_sandbox r x s₂).0 ≡ (find_project_for_sandbox r x s).0)
        × ((is_sandbox_released r x s₂).0 ≡ (is_sandbox_released r x s).0)
  stores_separate c move caller k p x s =
      let s₁ = (perform r c s).1 in
      let s₂ = (act (beside r) move caller s).1 in
      ground (
        arith,
        perform-SameClaims c k s,
        act-SameMapping move caller s p x,
        get_sandbox_id-reply (beside r) served k s₁,
        get_sandbox_id-reply (beside r) served k s,
        mark_pending-reply (beside r) served k s₁,
        mark_pending-reply (beside r) served k s,
        get_project_sandbox-reply r served p s₂,
        get_project_sandbox-reply r served p s,
        find_project-reply r served x s₂,
        find_project-reply r served x s,
        released-reply r served x s₂,
        released-reply r served x s,
      )
