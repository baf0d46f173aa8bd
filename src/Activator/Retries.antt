-- ===== src/Activator/Retries.antt =====
-- How often the activator tries and how long it waits
-- (activator/internal/service/activator.go, `doWithRetry`).
use k8s_sched_demo.Base.{
  true, inl, inr, ◌⊎◌, max, [], refl, zero, suc, ◌+◌, ◌≡◌, length, arith, ◌≤◌, All, ℕ, ◌∷◌, List,
}
use k8s_sched_demo.Activator.{
  is_retryable_error, max_retries_reached, plain, Reply, do_with_retry, Failure, retry_loop,
  next_backoff, Outgoing, Network, ActivatorService,
}

-- What is observed of a client: the requests sent and the waits begun, each newest first.
pub record Observed (H : Type 0) : Type 0 where
  pub inner : H
  pub requests : List Outgoing
  pub waits : List ℕ

-- The same network, watched.
abbrev pub watched : {H : Type 0} → Network H → Network (Observed H)
watched net = record {
  round_trip = λ req s.
      let (result, h) = net.round_trip req s.inner in
      (result, record s { inner = h; requests = req ∷ s.requests });
  pause = λ backoff s.
      let (ended, h) = net.pause backoff s.inner in
      (ended, record s { inner = h; waits = backoff ∷ s.waits });
  accepts = net.accepts;
  ask_scheduler = λ project_id wait s.
      let (result, h) = net.ask_scheduler project_id wait s.inner in
      (result, record s { inner = h });
}

module _ (svc : ActivatorService) {H : Type 0} (net : Network H) where
  -- Every request is the one given, and no wait passes the bound.
  abbrev pub OnlyAndWithin : Outgoing → ℕ → Observed H → Type 0
  OnlyAndWithin req bound s =
      All (λ sent. sent ≡ req) s.requests × All (λ wait. wait ≤ bound) s.waits

  next_backoff_le : (backoff : ℕ) → next_backoff svc backoff ≤ svc.max_backoff
  unfolding next_backoff
  next_backoff_le backoff = ground arith

  retry_loop-bounds :
      (retries backoff bound : ℕ) (req : Outgoing) (s : Observed H)
      → backoff ≤ bound
      → svc.max_backoff ≤ bound
      → OnlyAndWithin req bound s
      → let s' = (retry_loop svc (watched net) retries backoff req s).1 in
        (length s'.requests ≤ length s.requests + (retries + 1))
        × (length s'.waits ≤ length s.waits + retries)
        × OnlyAndWithin req bound s'
  unfolding retry_loop
  retry_loop-bounds zero backoff bound req s hb hm (h₁, h₂) = ground arith
  retry_loop-bounds (suc retries) backoff bound req s hb hm (h₁, h₂) =
      let sent = net.round_trip req s.inner in
      let paused = net.pause backoff sent.1 in
      let s₂ : Observed H = record {
        inner = paused.1;
        requests = req ∷ s.requests;
        waits = backoff ∷ s.waits;
      } in
      ground (
        arith,
        retry_loop-bounds retries (next_backoff svc backoff) bound req s₂
            (omega (arith, hm, next_backoff_le backoff)) hm ((refl, h₁), (hb, h₂)),
      )

  retry_loop-watched :
      (retries backoff : ℕ) (req : Outgoing) (s : Observed H)
      → let seen = retry_loop svc (watched net) retries backoff req s in
        let unseen = retry_loop svc net retries backoff req s.inner in
        (seen.0 ≡ unseen.0) × (seen.1.inner ≡ unseen.1)
  unfolding retry_loop
  retry_loop-watched zero backoff req s = ground arith
  retry_loop-watched (suc retries) backoff req s =
      let sent = net.round_trip req s.inner in
      let paused = net.pause backoff sent.1 in
      ground (
        arith,
        retry_loop-watched retries (next_backoff svc backoff) req
            (record { inner = paused.1; requests = req ∷ s.requests; waits = backoff ∷ s.waits }),
      )

  -- A failure "max retries reached" comes of an error that asks for a retry, and of that many
  -- requests.
  abbrev pub Exhausted : Failure ⊎ Reply → ℕ → ℕ → Type 0
  Exhausted (inr reply) sent allowed = Unit {0}
  Exhausted (inl (plain e)) sent allowed = Unit {0}
  Exhausted (inl (max_retries_reached e)) sent allowed =
      (is_retryable_error e ≡ true) × (sent ≡ allowed)

  retry_loop-Exhausted :
      (retries backoff : ℕ) (req : Outgoing) (s : Observed H)
      → let ended = retry_loop svc (watched net) retries backoff req s in
        Exhausted ended.0 (length ended.1.requests) (length s.requests + (retries + 1))
  unfolding retry_loop
  retry_loop-Exhausted zero backoff req s = ground arith
  retry_loop-Exhausted (suc retries) backoff req s =
      let sent = net.round_trip req s.inner in
      let paused = net.pause backoff sent.1 in
      let s₂ : Observed H = record {
        inner = paused.1;
        requests = req ∷ s.requests;
        waits = backoff ∷ s.waits;
      } in
      ground (arith, retry_loop-Exhausted retries (next_backoff svc backoff) req s₂)

  abbrev pub unwatched : H → Observed H
  unwatched h = record { inner = h; requests = []; waits = [] }

  -- Whatever the network does, doWithRetry answers the same whether or not it is watched; it sends
  -- at most one request more than there are retries, all of them the one given, and begins at most
  -- as many waits as there are retries, none longer than the initial and the maximal backoff; "max
  -- retries reached" comes of an error that asks for a retry, after exactly the allowed number of
  -- requests.
  pub do_with_retry-bounds :
      (req : Outgoing) (h : H)
      → let ended = do_with_retry svc (watched net) req (unwatched h) in
        (ended.0 ≡ (do_with_retry svc net req h).0)
        × (length ended.1.requests ≤ svc.max_retries + 1)
        × (length ended.1.waits ≤ svc.max_retries)
        × OnlyAndWithin req (max svc.initial_backoff svc.max_backoff) ended.1
        × Exhausted ended.0 (length ended.1.requests) (svc.max_retries + 1)
  unfolding do_with_retry
  do_with_retry-bounds req h =
      let bound = max svc.initial_backoff svc.max_backoff in
      ground (
        arith,
        retry_loop-watched svc.max_retries svc.initial_backoff req (unwatched h),
        retry_loop-bounds svc.max_retries svc.initial_backoff bound req (unwatched h) (omega arith)
            (omega arith) (tt, tt),
        retry_loop-Exhausted svc.max_retries svc.initial_backoff req (unwatched h),
      )
