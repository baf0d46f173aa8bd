-- ===== src/Scheduler/Deployed.antt =====
-- The services as they are wired (scheduler/internal/persistence/module.go): all stores share one
-- Redis client and the prefix "sch:". Releasing a sandbox leaves its idempotence key in place.
use k8s_sched_demo.Persistence.Store.Removal.{remove_sandbox_mapping_lem}
use k8s_sched_demo.Persistence.Store.Effects.{remove-db}
use k8s_sched_demo.Scheduler.Idempotency.{schedule_recorded}
use k8s_sched_demo.Persistence.Idempotence.Effects.{recorded}
use k8s_sched_demo.Types.Ids.{IsSandboxId, SandboxId, ProjectId}
use k8s_sched_demo.Persistence.Context.{Context}
use k8s_sched_demo.Persistence.Store.{
  get_project_sandbox, find_project_for_sandbox, form_released_key, form_project_sandbox_key,
  form_sandbox_project_key, remove_commands, default_key_prefix, new_redis_store, RedisStore,
}
use k8s_sched_demo.Persistence.Idempotence.{form_key, new_idempotence_store, IdempotenceStore}
use k8s_sched_demo.Kube.Interface.{K8sInterface}
use k8s_sched_demo.Errors.{not_found, err, ok, Result}
use k8s_sched_demo.Persistence.Redis.{Db, apply_all, IsServed, Redis}
use k8s_sched_demo.Base.{
  text_eq_refl, ◌∙◌, arith, ap, true, [], ◌∷◌, false, is_empty, text_eq, none, refl, Text, some, ℕ,
  ◌≡◌,
}
use k8s_sched_demo.Scheduler.{Sys, Service, schedule_sandbox, release_sandbox, is_sandbox_gone}

-- `ProvideStore` and `ProvideIdempotenceStore`
unfoldable pub provide_store : {R : Type 0} → Redis R → Result (RedisStore R)
provide_store client = new_redis_store (some client) default_key_prefix

unfoldable pub provide_idempotence_store : {R : Type 0} → Redis R → Result (IdempotenceStore R)
provide_idempotence_store client = new_idempotence_store (some client) default_key_prefix

module _ {R K : Type 0} (client : Redis R) (k8s : K8sInterface K) (ttl : ℕ) where
  -- `New`, on the stores that the providers return.
  unfoldable pub deployed : Service R K
  deployed = record {
    idempotence_store = record { client = client; key_prefix = default_key_prefix };
    k8s_client = k8s;
    store = record { client = client; key_prefix = default_key_prefix };
    sandbox_ttl = ttl;
  }

  pub deployed-provided :
      (provide_store client ≡ ok deployed.store)
      × (provide_idempotence_store client ≡ ok deployed.idempotence_store)
  unfolding deployed provide_store provide_idempotence_store new_redis_store new_idempotence_store
  deployed-provided = (refl, refl)

  -- No key that `RemoveSandboxMapping` writes is the result key of an idempotence key.
  remove_commands-recorded :
      (p : ProjectId) (x : SandboxId) (key : Text) (d : Db)
      → recorded deployed.idempotence_store key (apply_all (remove_commands deployed.store p x) d)
        ≡ recorded deployed.idempotence_store key d
  unfolding deployed apply_all remove_commands form_key form_sandbox_project_key
      form_project_sandbox_key form_released_key text_eq
  remove_commands-recorded [] x key d = refl
  remove_commands-recorded (c ∷ p) x key d = refl

  module _ (served : IsServed client) (elapse : R → R) where
    open served use {db}

    pub still_recorded :
        (key : Text) (p : ProjectId) (x : SandboxId) (s : Sys R K)
        → (find_project_for_sandbox deployed.store x s.redis).0 ≡ ok p
        → recorded deployed.idempotence_store key (db (release_sandbox deployed x s).redis)
          ≡ recorded deployed.idempotence_store key (db s.redis)
    unfolding release_sandbox deployed
    still_recorded key p x s owner =
        ap (recorded deployed.idempotence_store key)
          (remove-db deployed.store served p x s.redis owner)
        ∙ remove_commands-recorded p x key (db s.redis)

    pub gone_after_release :
        (p : ProjectId) (x : SandboxId) (s : Sys R K)
        → (find_project_for_sandbox deployed.store x s.redis).0 ≡ ok p
        → (is_sandbox_gone deployed x (release_sandbox deployed x s)).0 ≡ ok true
    unfolding release_sandbox is_sandbox_gone deployed
    gone_after_release p x s owner = ground (
      arith,
      remove_sandbox_mapping_lem deployed.store served p p x x s.redis owner,
      text_eq_refl x,
    )

    pub forgotten_after_release :
        (p : ProjectId) (x : SandboxId) (s : Sys R K)
        → is_empty p ≡ false
        → (find_project_for_sandbox deployed.store x s.redis).0 ≡ ok p
        → (get_project_sandbox deployed.store p (release_sandbox deployed x s).redis).0
          ≡ err not_found
    unfolding release_sandbox deployed
    forgotten_after_release p x s named owner = ground (
      arith,
      remove_sandbox_mapping_lem deployed.store served p p x x s.redis owner,
      text_eq_refl p,
    )

    -- A sandbox that was scheduled for a non-empty key, with an ID that is read back as it is
    -- written, is released while the key is remembered; the context is live, and the lookup of the
    -- project of the sandbox does not fail. The service then says that the sandbox is gone, and yet
    -- schedules that same sandbox for the key.
    pub reschedule_released :
        (ctx : Context) (nanos random : ℕ) (key : Text) (p : ProjectId) (x : SandboxId)
        (s : Sys R K)
        → ctx.done ≡ none
        → is_empty key ≡ false
        → IsSandboxId x
        → recorded deployed.idempotence_store key (db s.redis) ≡ some x
        → (find_project_for_sandbox deployed.store x s.redis).0 ≡ ok p
        → let s' = release_sandbox deployed x s in
          ((is_sandbox_gone deployed x s').0 ≡ ok true)
          × ((schedule_sandbox deployed elapse ctx nanos random key s').0 ≡ ok x)
    unfolding deployed
    reschedule_released ctx nanos random key p x s live named xi there owner = (
      gone_after_release p x s owner,
      (schedule_recorded deployed served elapse ctx nanos random key x
          (release_sandbox deployed x s) live named xi (still_recorded key p x s owner ∙ there)).0,
    )
