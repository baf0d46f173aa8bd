-- ===== src/Tests/Activations.antt =====
-- The properties of the activator at concrete inputs.
-- A sandbox that refuses the first two connections; the state counts the requests.
use k8s_sched_demo.Project.{active}
use k8s_sched_demo.Errors.{ok}
use k8s_sched_demo.Activator.Retries.{
  do_with_retry-bounds, Exhausted, OnlyAndWithin, unwatched, watched,
}
use k8s_sched_demo.Base.{
  max, ◌≤◌, ◌+◌, refl, length, inr, ◌≡◌, strip_prefix, inl, true, ltb, ◌∷◌, none, if◌then◌else◌,
  ◌*◌, ℕ, codes, [],
}
use k8s_sched_demo.Activator.{
  next_backoff, occurs_in, is_retryable_error, retry_loop, forwarded_request, do_with_retry, Reply,
  Network, Incoming, HttpError, ActivatorService,
}

abbrev refusal : HttpError
refusal = record { message = codes "dial tcp: connection refused"; temporary = none }

abbrev pub welcome : Reply
welcome = record { status_code = 200; headers = []; body = codes "hello" }

abbrev shy : Network ℕ
shy = record {
  round_trip = λ req n. (if ltb n 2 then inl refusal else inr welcome, n + 1);
  pause = λ backoff n. (none, n);
  accepts = λ method url. true;
  ask_scheduler = λ project_id wait n.
      (ok (record { sandbox_id = codes "x"; status = active; hostname = codes "host" }), n);
}

abbrev pub activator : ActivatorService
activator = record {
  max_retries = 3;
  initial_backoff = 100;
  max_backoff = 300;
  scale = λ backoff. backoff * 2;
}

abbrev pub visit : Incoming
visit = record {
  method = codes "GET";
  path = codes "/";
  raw_query = [];
  headers = (codes "Project-Id", codes "p" ∷ []) ∷ [];
  body = [];
}

-- The third request is answered, after waits of 100 and 200.
third_time :
    (do_with_retry activator
      (watched shy)
      (forwarded_request (codes "host") visit)
      (unwatched activator shy 0)).1.waits
    ≡ 200 ∷ 100 ∷ []
unfolding do_with_retry retry_loop is_retryable_error occurs_in strip_prefix next_backoff
third_time = refl

do_with_retry_example :
    let req = forwarded_request (codes "host") visit in
    let ended = do_with_retry activator (watched shy) req (unwatched activator shy 0) in
    (ended.0 ≡ (do_with_retry activator shy req 0).0)
    × (length ended.1.requests ≤ 3 + 1)
    × (length ended.1.waits ≤ 3)
    × OnlyAndWithin activator shy req (max 100 300) ended.1
    × Exhausted activator shy ended.0 (length ended.1.requests) (3 + 1)
do_with_retry_example =
    do_with_retry-bounds activator shy (forwarded_request (codes "host") visit) 0
