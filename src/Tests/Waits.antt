-- ===== src/Tests/Waits.antt =====
-- The properties of the waits at concrete inputs.
use k8s_sched_demo.Persistence.Idempotence.Completes.{
  completed_now, before_polls, Completes, claim_or_wait-Completes,
}
use k8s_sched_demo.Types.Base36.Collisions.{generate_sandbox_id-eq_iff}
use k8s_sched_demo.Kube.Waiting.{wait-BecomesReady, ready_now, BecomesReady}
use k8s_sched_demo.Errors.{ok}
use k8s_sched_demo.Types.Ids.{new_sandbox_id, sandbox_with_prefix}
use k8s_sched_demo.Types.Base36.{generate_sandbox_id}
use k8s_sched_demo.Tests.Fakes.{fake_served, live_ctx, fake_redis, empty_db, fake_client}
use k8s_sched_demo.Persistence.Redis.{apply, apply_all, put, Db}
use k8s_sched_demo.Persistence.Idempotence.{
  get_sandbox_id, form_sandbox_idempotence_key, form_pending_key, claim_result, form_key,
  complete_commands, mark_pending_creation, complete_pending_creation, claim_or_wait,
  IdempotenceStore,
}
use k8s_sched_demo.Kube.Spec.{sandbox_pod}
use k8s_sched_demo.Kube.Api.{PodPhase, Pod}
use k8s_sched_demo.Base.{
  strip_prefix, trim_prefix, arith, some, refl, none, ◌+◌, false, ◌∷◌, ◌↔◌, true, text_eq, [], ◌≡◌,
  codes, Text, List,
}
use k8s_sched_demo.Persistence.Idempotence.Effects.{recorded, pending}
use k8s_sched_demo.Kube.Client.{wait_for_sandbox_ready, is_sandbox_ready}

abbrev keys : IdempotenceStore Db
keys = record { client = fake_redis; key_prefix = codes "sch:" }

abbrev a : Text
a = codes "a"

abbrev job : Text
job = codes "job-1"

-- The holder of the claim completes it before the first poll.
abbrev completes : Db → Db
completes d = (complete_pending_creation keys job a d).1

abbrev marked : Db
marked = (mark_pending_creation keys job empty_db).1

marked_empty : recorded keys job marked ≡ none
unfolding mark_pending_creation form_key form_pending_key put text_eq
marked_empty = refl

marked_held : pending keys job marked ≡ some (codes "1")
unfolding mark_pending_creation form_key form_pending_key put text_eq
marked_held = refl

completed_first :
    Completes keys fake_served completes job a 0
      (before_polls keys fake_served completes job a marked)
unfolding complete_pending_creation complete_commands form_key form_pending_key put apply_all apply
    text_eq form_sandbox_idempotence_key mark_pending_creation get_sandbox_id new_sandbox_id
    trim_prefix strip_prefix
completed_first = completed_now (before_polls keys fake_served completes job a marked) refl

claim_or_wait-Completes_example :
    (claim_or_wait keys completes live_ctx job marked).0 ≡ claim_result keys false a none job
claim_or_wait-Completes_example =
    claim_or_wait-Completes keys fake_served completes job a live_ctx 0 (codes "1") marked refl
      marked_empty marked_held completed_first (omega arith)

-- The pod starts to run before the first poll.
abbrev pod : Pod
pod = sandbox_pod (codes "sandbox") (codes "image") true a

abbrev runs : List Pod → List Pod
runs pods =
    record pod {
      status = record { phase = PodPhase.running; conditions = []; container_statuses = [] };
    }
    ∷ []

not_ready : (is_sandbox_ready fake_client a (pod ∷ [])).0 ≡ ok false
unfolding is_sandbox_ready sandbox_pod sandbox_with_prefix text_eq
not_ready = refl

runs_first : BecomesReady fake_client runs a 0 (is_sandbox_ready fake_client a (pod ∷ [])).1
unfolding is_sandbox_ready sandbox_pod sandbox_with_prefix text_eq
runs_first = ready_now (pod ∷ []) refl

wait-BecomesReady_example :
    (wait_for_sandbox_ready fake_client runs live_ctx a (pod ∷ [])).0 ≡ ok true
wait-BecomesReady_example =
    wait-BecomesReady fake_client runs a live_ctx 0 (pod ∷ []) not_ready runs_first (omega arith)

-- A nanosecond later, with a random byte that is one less.
generate_sandbox_id-eq_iff_example :
    (generate_sandbox_id 1700000000000000000 7 ≡ generate_sandbox_id 1700000000000000001 6)
    ↔ (1700000000000000000 + 7 ≡ 1700000000000000001 + 6)
generate_sandbox_id-eq_iff_example =
    generate_sandbox_id-eq_iff 1700000000000000000 7 1700000000000000001 6 (omega arith)
      (omega arith)
