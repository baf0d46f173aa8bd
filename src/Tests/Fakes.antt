-- ===== src/Tests/Fakes.antt =====
-- A Redis server and a cluster that keep what they are told in memory.
use k8s_sched_demo.Persistence.Store.AllMappings.{IsPipelined}
use mathlib.Core.List.{append-nil}
use k8s_sched_demo.Errors.{
  redis_nil, remote, is_some, api_not_found, Error, ok, err, deadline_exceeded, Result,
}
use k8s_sched_demo.Scheduler.{Service}
use k8s_sched_demo.Persistence.Redis.{
  rest, first, update, publish, contains, put, expire, s_rem, s_add, apply, set, apply_all,
  reply_of, remove, all_writes, Replies, Redis, Queued, IsSorted, IsServed, Db,
}
use k8s_sched_demo.Persistence.Context.{Context}
use k8s_sched_demo.Kube.Interface.{k8s_interface, K8sInterface}
use k8s_sched_demo.Kube.Client.{K8sClient}
use k8s_sched_demo.Kube.Api.{PodList, Pod, Api}
use k8s_sched_demo.Base.{
  arith, inl, ◌⊎◌, subst, ap, map, sym, length, ◌++◌, ◌||◌, true, text_eq, some, not, ◌≡◌, ◌∷◌,
  if◌then◌else◌, false, codes, [], Option, Bool, refl, none, Text, List,
}

-- The server's state is what a client can read of it.
abbrev pub empty_db : Db
empty_db = record { value = λ k. none; member = λ k t. false; sorted = λ k. []; sent = [] }

unfoldable pub reply_to : Queued → Db → Result Text
reply_to (Queued.get k) d = reply_of (d.value k)
reply_to (set k v ttl) d = ok (codes "OK")
reply_to (Queued.del k) d = ok (codes "1")
reply_to (s_add k t) d = ok (codes "1")
reply_to (s_rem k t) d = ok (codes "1")
reply_to (expire k ttl) d = ok (codes "1")
reply_to (publish channel message) d = ok (codes "0")

unfoldable pub replies : List Queued → Db → List (Result Text)
replies [] d = []
replies (q ∷ qs) d = reply_to q d ∷ replies qs (apply q d)

unfoldable pub first_error : List (Result Text) → Option Error
first_error [] = none
first_error (ok t ∷ rs) = first_error rs
first_error (err e ∷ rs) = some e

abbrev pub run : List Queued → Db → Replies × Db
run qs d = (record { each = replies qs d; error = first_error (replies qs d) }, apply_all qs d)

-- The sets of the tests hold no other members than these few.
abbrev pub members_among : (Text → Bool) → List Text → List Text
members_among is_member [] = []
members_among is_member (t ∷ ts) =
    if is_member t then t ∷ members_among is_member ts else members_among is_member ts

abbrev pub fake_redis : Redis Db
fake_redis = record {
  get = λ k d. (reply_of (d.value k), d);
  set_nx = λ k v ttl d.
      (ok (not (is_some (d.value k))), if is_some (d.value k) then d else put k (some v) d);
  del = λ k d. (ok (if is_some (d.value k) then 1 else 0), put k none d);
  exists = λ k d. (ok (if is_some (d.value k) then 1 else 0), d);
  s_members = λ k d. (ok (members_among (d.member k) (codes "a" ∷ codes "b" ∷ codes "p" ∷ [])), d);
  exec = run;
  exec_tx = run;
  z_add = λ k score t d. (
    ok (if contains t (d.sorted k) then 0 else 1),
    record d { sorted = update d.sorted k (remove t (d.sorted k) ++ t ∷ []) },
  );
  z_pop_min =
      λ k d. (ok (first (d.sorted k)), record d { sorted = update d.sorted k (rest (d.sorted k)) });
  z_card = λ k d. (ok (length (d.sorted k)), d);
  z_range = λ k d. (ok (d.sorted k), d);
  z_rem = λ k t d. (
    ok (if contains t (d.sorted k) then 1 else 0),
    record d { sorted = update d.sorted k (remove t (d.sorted k)) },
  );
}

pub run-error :
    (qs : List Queued) (d : Db) → all_writes qs ≡ true → first_error (replies qs d) ≡ none
unfolding first_error replies reply_to
run-error [] d h = refl
run-error (Queued.get k ∷ qs) d h = cc
run-error (set k v ttl ∷ qs) d h = run-error qs (apply (set k v ttl) d) h
run-error (Queued.del k ∷ qs) d h = run-error qs (apply (Queued.del k) d) h
run-error (s_add k t ∷ qs) d h = run-error qs (apply (s_add k t) d) h
run-error (s_rem k t ∷ qs) d h = run-error qs (apply (s_rem k t) d) h
run-error (expire k ttl ∷ qs) d h = run-error qs (apply (expire k ttl) d) h
run-error (publish c m ∷ qs) d h = run-error qs (apply (publish c m) d) h

abbrev pub fake_served : IsServed fake_redis
fake_served = record {
  db = λ d. d;
  get_reply = λ k s. refl;
  get_db = λ k s. refl;
  set_nx_reply = λ k v ttl s. refl;
  set_nx_db = λ k v ttl s. refl;
  del_reply = λ k s. refl;
  del_db = λ k s. refl;
  exists_reply = λ k s. refl;
  exists_db = λ k s. refl;
  exec_error = run-error;
  exec_db = λ qs s. refl;
  exec_tx_error = run-error;
  exec_tx_db = λ qs s. refl;
}

abbrev pub fake_sorted : IsSorted fake_redis (λ s. (fake_served.db s).sorted)
fake_sorted = record {
  card_reply = λ k s. refl;
  card_sorted = λ k s. refl;
  range_reply = λ k s. refl;
  range_sorted = λ k s. refl;
  pop_reply = λ k s. refl;
  pop_sorted = λ k s. refl;
  rem_reply = λ k t s. refl;
  rem_sorted = λ k t s. refl;
  add_reply = λ k t score s. refl;
  add_sorted =
      λ k t score s. (remove t (s.sorted k), [], sym (append-nil (remove t (s.sorted k))), refl);
}

-- The cluster's state is the list of its pods; services are accepted and forgotten.
abbrev pub has_pod : Text → List Pod → Bool
has_pod name [] = false
has_pod name (pod ∷ pods) = text_eq pod.name name || has_pod name pods

abbrev pub find_pod : Text → List Pod → Result Pod
find_pod name [] = err api_not_found
find_pod name (pod ∷ pods) = if text_eq pod.name name then ok pod else find_pod name pods

abbrev pub without_pod : Text → List Pod → List Pod
without_pod name [] = []
without_pod name (pod ∷ pods) =
    if text_eq pod.name name then without_pod name pods else pod ∷ without_pod name pods

-- One pod to a page.
abbrev pub page_of : List Pod → PodList
page_of [] = record { items = []; continue = [] }
page_of (pod ∷ []) = record { items = pod ∷ []; continue = [] }
page_of (pod ∷ pods) = record { items = pod ∷ []; continue = codes "more" }

abbrev pub fake_api : Api (List Pod)
fake_api = record {
  create_pod = λ namespace pod pods.
      if has_pod pod.name pods
      then (some (remote (codes "already exists")), pods)
      else (none, pod ∷ pods);
  delete_pod = λ namespace name pods.
      if has_pod name pods then (none, without_pod name pods) else (some api_not_found, pods);
  get_pod = λ namespace name pods. (find_pod name pods, pods);
  list_pods = λ namespace options pods. (ok (page_of pods), pods);
  create_service = λ namespace service pods. (none, pods);
  update_service = λ namespace service pods. (none, pods);
  get_service = λ namespace name pods. (err api_not_found, pods);
  delete_service = λ namespace name pods. (none, pods);
}

abbrev pub fake_client : K8sClient (List Pod)
fake_client = record {
  clientset = fake_api;
  namespace = codes "sandbox";
  use_gvisor = true;
  sandbox_image = codes "image";
}

abbrev pub fake_interface : K8sInterface (List Pod)
fake_interface = k8s_interface (λ pods. pods) fake_client

abbrev pub live_ctx : Context
live_ctx = record { done = none; rounds = 2; reason = deadline_exceeded }

abbrev pub fake_service : Service Db (List Pod)
fake_service = record {
  idempotence_store = record { client = fake_redis; key_prefix = codes "sch:" };
  k8s_client = fake_interface;
  store = record { client = fake_redis; key_prefix = codes "sch:" };
  sandbox_ttl = 3600;
}

pub replies-gets :
    (ks : List Text) (d : Db) → replies (map Queued.get ks) d ≡ map (λ k. reply_of (d.value k)) ks
unfolding replies reply_to apply
replies-gets [] d = refl
replies-gets (k ∷ ks) d = ap (◌∷◌ (reply_of (d.value k))) (replies-gets ks d)

pub first_error-gets :
    (ks : List Text) (d : Db)
    → (first_error (map (λ k. reply_of (d.value k)) ks) ≡ none)
      ⊎ (first_error (map (λ k. reply_of (d.value k)) ks) ≡ some redis_nil)
unfolding first_error
first_error-gets [] d = inl refl
first_error-gets (k ∷ ks) d = ground (arith, first_error-gets ks d)

abbrev pub fake_pipelined : IsPipelined fake_redis fake_served
fake_pipelined = record {
  members_db = λ k s. refl;
  gets_each = replies-gets;
  gets_error = λ ks s.
      subst
        (λ (rs : List (Result Text)). (first_error rs ≡ none) ⊎ (first_error rs ≡ some redis_nil))
        (sym (replies-gets ks s)) (first_error-gets ks s);
}
