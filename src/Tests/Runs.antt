-- ===== src/Tests/Runs.antt =====
-- Runs of the pool at concrete inputs.
use k8s_sched_demo.Errors.{pool_empty, ok, err}
use k8s_sched_demo.Kube.Api.{Pod}
use k8s_sched_demo.Tests.Fakes.{fake_sorted, fake_served}
use k8s_sched_demo.Persistence.Redis.{Db}
use k8s_sched_demo.Types.Ids.{new_sandbox_id}
use k8s_sched_demo.Scheduler.{Sys}
use k8s_sched_demo.Pool.Exclusive.{
  begun, taken, refused, Run-occurrences, checked, occurrences, Run,
}
use k8s_sched_demo.Pool.{check_pending_sandboxes, get_sandbox}
use k8s_sched_demo.Persistence.PoolStore.{get_ready_sandbox, get_key, add_ready_sandbox}
use k8s_sched_demo.Tests.Pools.{pool, quiet, one_ready}
use k8s_sched_demo.Base.{
  text_eq_iff, ◌≤◌, subst, refl, arith, true, if◌then◌else◌, ◌≡◌, ◌∷◌, [], codes, Text, text_eq,
  strip_prefix, List, trim_prefix,
}

abbrev after_taken : Sys Db (List Pod)
after_taken = (get_sandbox pool quiet (codes "key") one_ready).1

takes_11 : (get_sandbox pool quiet (codes "key") one_ready).0 ≡ ok (codes "11")
unfolding get_sandbox get_ready_sandbox add_ready_sandbox get_key text_eq new_sandbox_id trim_prefix
    strip_prefix
takes_11 = refl

finds_none : (get_sandbox pool quiet (codes "key") after_taken).0 ≡ err pool_empty
unfolding get_sandbox get_ready_sandbox add_ready_sandbox get_key text_eq new_sandbox_id trim_prefix
    strip_prefix
finds_none = refl

-- Two calls and a check.
taken_once :
    Run pool quiet fake_served fake_sorted
      (λ s. refl)
      one_ready
      (codes "11" ∷ [])
      (check_pending_sandboxes pool quiet 13 (get_sandbox pool quiet (codes "key") after_taken).1).1
taken_once =
    checked 13 (
      refused (codes "key") pool_empty (taken (codes "key") (codes "11") begun takes_11) finds_none)

one_ready-counts :
    (t : Text)
    → occurrences pool quiet fake_served fake_sorted (λ s. refl) t [] one_ready
      ≡ (if text_eq (codes "11") t then 1 else 0)
unfolding add_ready_sandbox get_key text_eq
one_ready-counts t = ground arith

reads_11 : (t : Text) → text_eq (codes "11") t ≡ true → new_sandbox_id t ≡ ok t
unfolding new_sandbox_id trim_prefix strip_prefix
reads_11 t same = subst (λ u. new_sandbox_id u ≡ ok u) ((text_eq_iff (codes "11") t).0 same) refl

Run-occurrences_example :
    occurrences pool quiet fake_served fake_sorted
      (λ s. refl)
      (codes "11")
      (codes "11" ∷ [])
      (check_pending_sandboxes pool quiet 13 (get_sandbox pool quiet (codes "key") after_taken).1).1
    ≤ 1
Run-occurrences_example =
    Run-occurrences pool quiet fake_served fake_sorted (λ s. refl)
      (λ t. ground (arith, one_ready-counts t))
      (λ t here. reads_11 t (ground (arith, one_ready-counts t, here))) taken_once (codes "11")
