-- ===== src/Tests/Claims.antt =====
-- The properties of the idempotence store at concrete inputs.
use k8s_sched_demo.Errors.{deadline_exceeded}
use k8s_sched_demo.Persistence.Idempotence.Waits.{await-Waited, Waited}
use k8s_sched_demo.Types.Ids.{IsSandboxId}
use k8s_sched_demo.Tests.Fakes.{live_ctx, fake_served, fake_redis, empty_db}
use k8s_sched_demo.Persistence.Redis.{apply, apply_all, put, Db}
use k8s_sched_demo.Persistence.Idempotence.Effects.{recorded, pending}
use k8s_sched_demo.Persistence.Idempotence.{
  form_sandbox_idempotence_key, await_idempotence_completion, get_sandbox_id, form_pending_key,
  form_key, complete_commands, claim_or_wait, mark_pending_creation, complete_pending_creation,
  IdempotenceStore,
}
use k8s_sched_demo.Base.{text_eq, some, true, none, ◌≡◌, refl, codes, strip_prefix, Text}

abbrev keys : IdempotenceStore Db
keys = record { client = fake_redis; key_prefix = codes "sch:" }

abbrev quiet : Db → Db
quiet d = d

abbrev a : Text
a = codes "a"

abbrev b : Text
b = codes "b"

abbrev job : Text
job = codes "job-1"

a-IsSandboxId : IsSandboxId (codes "a")
unfolding strip_prefix
a-IsSandboxId = record { valid = refl; bare = refl }

-- Servers where the key `job-1` has a marker, and where it has a sandbox.
abbrev marked : Db
marked = (mark_pending_creation keys job empty_db).1

abbrev completed_db : Db
completed_db = (complete_pending_creation keys job a empty_db).1

unmarked_job : pending keys job empty_db ≡ none
unmarked_job = refl

empty_job : recorded keys job empty_db ≡ none
empty_job = refl

job_has_marker : pending keys job marked ≡ some (codes "1")
unfolding mark_pending_creation form_pending_key put text_eq
job_has_marker = refl

unrecorded_job : recorded keys job marked ≡ none
unfolding mark_pending_creation form_key form_pending_key put text_eq
unrecorded_job = refl

job_has_sandbox : recorded keys job completed_db ≡ some a
unfolding complete_pending_creation complete_commands form_key form_pending_key put apply_all apply
    text_eq form_sandbox_idempotence_key
job_has_sandbox = refl

job_is_claimed : (claim_or_wait keys quiet live_ctx job empty_db).0.claimed ≡ true
unfolding claim_or_wait get_sandbox_id mark_pending_creation
job_is_claimed = refl

await-Waited_example :
    Waited keys fake_served quiet deadline_exceeded job
      (await_idempotence_completion keys quiet live_ctx job marked)
await-Waited_example = await-Waited keys fake_served quiet live_ctx job marked
