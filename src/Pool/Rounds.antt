-- ===== src/Pool/Rounds.antt =====
-- How a whole round of maintenance changes the size of the pool
-- (scheduler/internal/sandboxpool/service.go, `maintainPool`), on a Redis server that answers and
-- while no other client changes the pool.
use k8s_sched_demo.Errors.{ok, err}
use k8s_sched_demo.Types.Ids.{SandboxId}
use k8s_sched_demo.Pool.Bounds.{top_up_bounds, length-remove-le, ready_count, pending_count}
use k8s_sched_demo.Pool.Check.{contains-remove}
use k8s_sched_demo.Persistence.PoolStore.{
  valid_ids, count_pending_sandboxes, get_pending_sandboxes, count_ready_sandboxes, ready-pending,
  pending-ready, ready_sandboxes_key, pending_sandboxes_key, add_ready_sandbox,
  remove_pending_sandbox, get_key,
}
use k8s_sched_demo.Scheduler.{is_sandbox_ready, Sys}
use k8s_sched_demo.Persistence.Redis.{remove, IsSorted, contains, IsServed}
use k8s_sched_demo.Pool.{
  Moment, maintain_pool, check_pending_sandboxes, move_to_ready, check_loop, PoolService,
}
use k8s_sched_demo.Base.{
  ◌∙◌, max, Bool, if◌then◌else◌, inr, ◌⊎◌, inl, length-append, ap, text_eq_sym, ◌+◌, ℕ, true,
  text_eq_refl, false, [], ◌≤◌, ◌≡◌, arith, ◌∷◌, length, Text, List,
}

-- No member occurs twice, as in a sorted set.
abbrev pub AreDistinct : List Text → Type 0
AreDistinct [] = Unit {0}
AreDistinct (x ∷ xs) = (contains x xs ≡ false) × AreDistinct xs

-- Distinct members of another list.
abbrev AreListed : List Text → List Text → Type 0
AreListed [] ps = Unit {0}
AreListed (x ∷ xs) ps = (contains x ps ≡ true) × (contains x xs ≡ false) × AreListed xs ps

AreListed-cons : (y : Text) (xs ps : List Text) → AreListed xs ps → AreListed xs (y ∷ ps)
AreListed-cons y [] ps h = tt
AreListed-cons y (x ∷ xs) ps (here, new_one, h) = (ground arith, new_one, AreListed-cons y xs ps h)

AreListed-self : (xs : List Text) → AreDistinct xs → AreListed xs xs
AreListed-self [] h = tt
AreListed-self (x ∷ xs) (new_one, h) =
    (ground (arith, text_eq_refl x), new_one, AreListed-cons x xs xs (AreListed-self xs h))

AreListed-remove :
    (x : Text) (xs ps : List Text)
    → contains x xs ≡ false
    → AreListed xs ps
    → AreListed xs (remove x ps)
AreListed-remove x [] ps absent h = tt
AreListed-remove x (y ∷ ys) ps absent (here, new_one, h) = (
  ground (arith, contains-remove y x ps, text_eq_sym x y),
  new_one,
  AreListed-remove x ys ps (ground arith) h,
)

length-remove :
    (x : Text) (ps : List Text) → contains x ps ≡ true → length (remove x ps) + 1 ≡ length ps
length-remove x [] h = cc
length-remove x (p ∷ ps) h = ground (arith, length-remove x ps)

length-remove-ge : (x : Text) (ps : List Text) → length ps ≤ length (remove x ps) + 1
length-remove-ge x [] = omega arith
length-remove-ge x (p ∷ ps) = ground (arith, length-remove-ge x ps)

module _ {R K : Type 0} (svc : PoolService R K) (elapse : R → R)
    (served : IsServed svc.scheduler_service.idempotence_store.client)
    (sorted_sets : IsSorted svc.pool_store.client (λ s. (served.db s).sorted))
    (calm : (s : R) → (served.db (elapse s)).sorted ≡ (served.db s).sorted) where
  open served use {db}

  abbrev readies : Sys R K → ℕ
  readies = ready_count svc elapse served sorted_sets calm

  abbrev pendings : Sys R K → ℕ
  pendings = pending_count svc elapse served sorted_sets calm

  abbrev pub pending_members : Sys R K → List Text
  pending_members s = (db s.redis).sorted (get_key svc.pool_store pending_sandboxes_key)

  -- The pool did not lose ready sandboxes nor gain pending ones, nor grow as a whole.
  abbrev Shifted : Sys R K → Sys R K → Type 0
  Shifted s s' =
      (readies s ≤ readies s')
      × (pendings s' ≤ pendings s)
      × (readies s' + pendings s' ≤ readies s + pendings s)

  move_to_ready-Shifted :
      (now : ℕ) (x : SandboxId) (s : Sys R K)
      → contains x (pending_members s) ≡ true
      → let s' = move_to_ready svc elapse now x s in
        Shifted s s' × (pending_members s' ≡ remove x (pending_members s))
  unfolding move_to_ready remove_pending_sandbox add_ready_sandbox
  move_to_ready-Shifted now x s here =
      let p = get_key svc.pool_store pending_sandboxes_key in
      let q = get_key svc.pool_store ready_sandboxes_key in
      let r₁ = (svc.pool_store.client.z_rem p x s.redis).1 in
      let removed = sorted_sets.rem_sorted p x s.redis in
      let (before, after, cut, whole) = sorted_sets.add_sorted q x now r₁ in
      ground (
        arith,
        sorted_sets.rem_reply p x s.redis,
        ap (λ f. f p) removed,
        ap (λ f. f q) removed,
        ap (λ f. f p) whole,
        ap (λ f. f q) whole,
        text_eq_refl p,
        text_eq_refl q,
        pending-ready svc.pool_store,
        ready-pending svc.pool_store,
        length-append before (x ∷ after),
        length-append before after,
        ap length cut,
        length-remove x (pending_members s) here,
        length-remove-ge x ((db r₁).sorted q),
        length-remove-le x ((db r₁).sorted q),
      )

  -- What the check of one pending sandbox leads to.
  abbrev checked : ℕ → SandboxId → Sys R K → Sys R K
  checked now x s =
      let (ready, s₁) = is_sandbox_ready svc.scheduler_service x s in
      elim ready [
        | err e ↦ s₁
        | ok is_ready ↦ if is_ready then move_to_ready svc elapse now x s₁ else s₁
      ]

  checked-Shifted :
      (now : ℕ) (x : SandboxId) (s : Sys R K)
      → contains x (pending_members s) ≡ true
      → Shifted s (checked now x s)
        × ((pending_members (checked now x s) ≡ pending_members s)
            ⊎ (pending_members (checked now x s) ≡ remove x (pending_members s)))
  unfolding is_sandbox_ready
  checked-Shifted now x s here =
      ground (arith, move_to_ready-Shifted now x (is_sandbox_ready svc.scheduler_service x s).1)

  check_loop-Shifted :
      (now : ℕ) (xs : List SandboxId) (s : Sys R K)
      → AreListed xs (pending_members s)
      → Shifted s (check_loop svc elapse now xs s)
  unfolding check_loop
  check_loop-Shifted now [] s h = omega arith
  check_loop-Shifted now (x ∷ xs) s (here, absent, h) =
      let (shifted, members) = checked-Shifted now x s here in
      let later = check_loop-Shifted now xs (checked now x s) (elim members [
        | inl e ↦ rw e h
        | inr e ↦ rw e (AreListed-remove x xs (pending_members s) absent h)
      ]) in
      omega (arith, shifted, later)

  check-Shifted :
      (now : ℕ) (s : Sys R K)
      → AreDistinct (pending_members s)
      → valid_ids (pending_members s) ≡ pending_members s
      → Shifted s (check_pending_sandboxes svc elapse now s).1
  unfolding check_pending_sandboxes get_pending_sandboxes
  check-Shifted now s distinct bare =
      let p = get_key svc.pool_store pending_sandboxes_key in
      let s₁ : Sys R K = record s { redis = (svc.pool_store.client.z_range p s.redis).1 } in
      let same = sorted_sets.range_sorted p s.redis in
      ground (
        arith,
        sorted_sets.range_reply p s.redis,
        ap (λ f. length (f p)) same,
        ap (λ f. length (f (get_key svc.pool_store ready_sandboxes_key))) same,
        check_loop-Shifted now (valid_ids (pending_members s)) s₁
            (rw (bare, ap (λ f. f p) same) (AreListed-self (pending_members s) distinct)),
      )

  -- A run of maintainPool, on a server that answers for its sorted sets and while no other client
  -- changes the pool, with pending members that are distinct and read back as they are written: no
  -- ready sandbox is lost, the pool does not grow above its size and the pending ones not above
  -- their limit, unless they were above already, and then they do not grow.
  pub maintain_pool-bounds :
      (locked : Bool) (now : ℕ) (at : ℕ → Moment) (s : Sys R K)
      → AreDistinct (pending_members s)
      → valid_ids (pending_members s) ≡ pending_members s
      → let s' = (maintain_pool svc elapse locked now at s).1 in
        (readies s ≤ readies s')
        × (readies s' + pendings s' ≤ max svc.config.pool_size (readies s + pendings s))
        × (pendings s' ≤ max svc.config.pool_max_pending (pendings s))
  unfolding maintain_pool count_ready_sandboxes count_pending_sandboxes
  maintain_pool-bounds locked now at s distinct bare =
      let p = get_key svc.pool_store pending_sandboxes_key in
      let q = get_key svc.pool_store ready_sandboxes_key in
      let r₁ = (svc.pool_store.client.z_card q s.redis).1 in
      let s₂ : Sys R K = record s { redis = (svc.pool_store.client.z_card p r₁).1 } in
      let same = sorted_sets.card_sorted p r₁ ∙ sorted_sets.card_sorted q s.redis in
      let members = ap (λ f. f p) same in
      let s₃ = (check_pending_sandboxes svc elapse now s₂).1 in
      ground (
        arith,
        sorted_sets.card_reply q s.redis,
        sorted_sets.card_reply p r₁,
        ap length members,
        ap (λ f. length (f q)) same,
        check-Shifted now s₂ (rw members distinct) (rw members bare),
        top_up_bounds svc elapse served sorted_sets calm at s₂,
        top_up_bounds svc elapse served sorted_sets calm at s₃,
      )
