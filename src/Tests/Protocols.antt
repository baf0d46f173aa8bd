-- ===== src/Tests/Protocols.antt =====
-- The properties of several callers and of the two stores together at concrete inputs.
use k8s_sched_demo.Persistence.Separate.{stores_separate}
use k8s_sched_demo.Types.Ids.{IsSandboxId, IsProjectId}
use k8s_sched_demo.Persistence.Idempotence.Protocol.Invariant.{
  run_moves-marked_iff_held, run_moves-one_holder,
}
use k8s_sched_demo.Errors.{ok, is_some}
use k8s_sched_demo.Tests.Fakes.{live_ctx, fake_served, fake_redis, empty_db}
use k8s_sched_demo.Persistence.Redis.{put, Db}
use k8s_sched_demo.Persistence.Idempotence.Protocol.Races.{late_mark, holder-excludes, before_mark}
use k8s_sched_demo.Persistence.Idempotence.{
  form_pending_key, form_key, mark_pending_creation, get_sandbox_id, claim_or_wait,
  IdempotenceStore,
}
use k8s_sched_demo.Base.{
  text_eq, ◌↔◌, none, [], ◌∷◌, true, some, false, ℕ, refl, codes, ◌≡◌, strip_prefix, Text, List,
}
use k8s_sched_demo.Persistence.Idempotence.Effects.{recorded, pending}
use k8s_sched_demo.Persistence.Store.{
  is_sandbox_released, find_project_for_sandbox, RedisStore, get_project_sandbox,
}
use k8s_sched_demo.Persistence.Idempotence.Protocol.{
  waiting, look, holding, asking, Move, mark, start, run_moves, step, act,
}
use k8s_sched_demo.Persistence.Store.Refinement.{
  perform_all-change_all, project_answer, sandbox_answer, perform_all, empty_registry, Change,
  perform, change_all, IsFresh, assign, release,
}

abbrev keys : IdempotenceStore Db
keys = record { client = fake_redis; key_prefix = codes "sch:" }

abbrev store : RedisStore Db
store = record { client = fake_redis; key_prefix = codes "sch:" }

abbrev quiet : Db → Db
quiet d = d

abbrev a : Text
a = codes "a"

abbrev b : Text
b = codes "b"

abbrev job : Text
job = codes "job-1"

-- Two callers ask for the key; the first gets the claim.
abbrev both_ask : List (ℕ × Move)
both_ask = (0, look job) ∷ (1, look job) ∷ (0, mark) ∷ (1, mark) ∷ []

zero_holds : (run_moves keys both_ask (start empty_db)).callers 0 ≡ holding job
unfolding run_moves step act get_sandbox_id mark_pending_creation form_key form_pending_key put
    text_eq
zero_holds = refl

one_waits : (run_moves keys both_ask (start empty_db)).callers 1 ≡ waiting job
unfolding run_moves step act get_sandbox_id mark_pending_creation form_key form_pending_key put
    text_eq
one_waits = refl

abbrev first : ℕ
first = 0

run_moves-one_holder_example : first ≡ first
run_moves-one_holder_example =
    run_moves-one_holder keys fake_served both_ask job first first empty_db (λ l. refl) zero_holds
      zero_holds

run_moves-marked_iff_held_example :
    let σ = run_moves keys both_ask (start empty_db) in
    (is_some (pending keys job σ.server) ≡ true) ↔ ((i : ℕ) × (σ.callers i ≡ holding job))
run_moves-marked_iff_held_example =
    run_moves-marked_iff_held keys fake_served both_ask job empty_db (λ l. refl)

holder-excludes_example :
    (claim_or_wait keys quiet live_ctx job
      (run_moves keys both_ask (start empty_db)).server).0.claimed
    ≡ false
holder-excludes_example =
    holder-excludes keys fake_served quiet both_ask live_ctx job 0 empty_db (λ l. refl) zero_holds

late_mark_example :
    let σ = before_mark keys fake_served job a empty_db refl refl in
    (recorded keys job σ.server ≡ some a) × ((step keys 0 mark σ).callers 0 ≡ holding job)
late_mark_example = late_mark keys fake_served job a empty_db refl refl

a-IsSandboxId : IsSandboxId (codes "a")
unfolding strip_prefix
a-IsSandboxId = record { valid = refl; bare = refl }

a-IsProjectId : IsProjectId (codes "a")
unfolding strip_prefix
a-IsProjectId = record { valid = refl; bare = refl }

-- A project gets a sandbox, which is released.
abbrev come_and_go : List Change
come_and_go = assign a a ∷ release a ∷ []

empty-IsFresh : IsFresh store empty_db
empty-IsFresh = record { no_sandbox = λ p. refl; no_project = λ x. refl; no_mark = λ x. refl }

perform_all-change_all_example :
    let g = change_all come_and_go empty_registry in
    let (error, s') = perform_all store come_and_go empty_db in
    (error ≡ none)
    × ((get_project_sandbox store a s').0 ≡ sandbox_answer (g.sandbox_of a))
    × ((find_project_for_sandbox store a s').0 ≡ project_answer (g.project_of a))
    × ((is_sandbox_released store a s').0 ≡ ok (g.released a))
perform_all-change_all_example =
    perform_all-change_all store fake_served come_and_go a a empty_db empty-IsFresh
      ((a-IsProjectId, a-IsSandboxId), (tt, tt))

stores_separate_example :
    let s₁ = (perform store (assign a b) empty_db).1 in
    let s₂ = (act keys mark (asking job) empty_db).1 in
    ((get_sandbox_id keys job s₁).0 ≡ (get_sandbox_id keys job empty_db).0)
    × ((mark_pending_creation keys job s₁).0 ≡ (mark_pending_creation keys job empty_db).0)
    × ((get_project_sandbox store a s₂).0 ≡ (get_project_sandbox store a empty_db).0)
    × ((find_project_for_sandbox store b s₂).0 ≡ (find_project_for_sandbox store b empty_db).0)
    × ((is_sandbox_released store b s₂).0 ≡ (is_sandbox_released store b empty_db).0)
stores_separate_example =
    stores_separate store fake_served (assign a b) mark (asking job) job a b empty_db
