-- ===== src/Persistence/Idempotence/Protocol/Invariant.antt =====
-- At most one caller holds the claim of an idempotence key, and the marker is set exactly while one
-- does (scheduler/internal/persistence/idempotence_impl.go, `ClaimOrWait`), for callers whose
-- commands come in any order, on a Redis server that answers.
use k8s_sched_demo.Persistence.Idempotence.Protocol.{
  start, step, at_index, run_moves, System, look, mark, poll, probe, finish, give_up, idle, asking,
  waiting,
}
use k8s_sched_demo.Persistence.Idempotence.Effects.{
  drop_pending-db, complete_commands-pending, complete_pending-db, complete_pending-error,
  put-pending, mark_pending-db, mark_pending-reply, get_sandbox_id-db, pending,
}
use k8s_sched_demo.Errors.{is_some}
use k8s_sched_demo.Persistence.Claim.{drop, complete}
use k8s_sched_demo.Persistence.Redis.{IsServed}
use k8s_sched_demo.Persistence.Idempotence.Protocol.{
  finish, waiting, asking, look, Move, holding, idle, act, Caller,
}
use k8s_sched_demo.Persistence.Idempotence.{form_pending_key, sink, IdempotenceStore}
use k8s_sched_demo.Base.{
  inr, inl, text_eq→eq, [], Bool-cases, ◌∷◌, ◌↔◌, text_eq_refl, ap, true, List, none, text_eq_iff,
  codes, some, arith, not, ◌||◌, false, ◌&&◌, text_eq, if◌then◌else◌, ◌≡◌, Bool, Text, ℕ,
}

module _ {R : Type 0} (r : IdempotenceStore R) (served : IsServed r.client) where
  open served use {db}

  -- Whether the marker of a key is set, and whether a caller holds its claim.
  abbrev marked : Text → R → Bool
  marked k s = is_some (pending r k (db s))

  abbrev holds : Text → Caller → Bool
  holds k (holding l) = text_eq l k
  holds k _ = false

  -- What one move of a caller does to the markers, by what it holds before and after.
  abbrev Moved : Text → Caller → R → Caller × R → Type 0
  Moved k c s (c', s') =
      (marked k s' ≡ (if holds k c then holds k c' && marked k s else holds k c' || marked k s))
      × ((holds k c' && not (holds k c) && marked k s) ≡ false)

  act-Moved : (move : Move) (c : Caller) (s : R) (k : Text) → Moved k c s (act r move c s)
  unfolding act complete drop sink
  act-Moved (look l) idle s k = ground (arith, get_sandbox_id-db r served l s)
  act-Moved mark (asking l) s k = ground (
    arith,
    mark_pending-reply r served l s,
    mark_pending-db r served l s,
    put-pending r l k (some (codes "1")) (db s),
    text_eq_iff l k,
  )
  act-Moved poll (waiting l) s k = ground (arith, get_sandbox_id-db r served l s)
  act-Moved probe (waiting l) s k = ground (arith, served.exists_db (form_pending_key r l) s)
  act-Moved (finish x) (holding l) s k = ground (
    arith,
    complete_pending-error r served l x s,
    complete_pending-db r served l x s,
    complete_commands-pending r l k x (db s),
  )
  act-Moved give_up (holding l) s k =
      ground (arith, drop_pending-db r served l s, put-pending r l k none (db s))
  act-Moved move c s k = ground arith

  -- The claim of a key is held by one caller at most, and the marker says whether it is held.
  pub record IsCoherent (σ : System R) : Type 0 where
    pub unique :
        (k : Text) (i j : ℕ) → holds k (σ.callers i) ≡ true → holds k (σ.callers j) ≡ true → i ≡ j
    pub held_marked : (k : Text) (i : ℕ) → holds k (σ.callers i) ≡ true → marked k σ.server ≡ true
    pub marked_held :
        (k : Text) → marked k σ.server ≡ true → (i : ℕ) × (holds k (σ.callers i) ≡ true)

  module _ (i : ℕ) (move : Move) (σ : System R) (coherent : IsCoherent σ) where
    abbrev acted : Caller × R
    acted = act r move (σ.callers i) σ.server

    -- A holder after the step that is not the caller that moved held the claim before.
    step-marked_held :
        (k : Text)
        → marked k acted.1 ≡ true
        → (j : ℕ) × (holds k (at_index σ.callers i acted.0 j) ≡ true)
    step-marked_held k h = elim (Bool-cases (holds k acted.0)) [
      | inl e ↦ (i, ground (arith, e))
      | inr e ↦
          let moved = act-Moved move (σ.callers i) σ.server k in
          let (j, held) = coherent.marked_held k (ground (arith, e, moved)) in
          (j, ground (arith, e, held, moved))
    ]

    step-IsCoherent : IsCoherent (step r i move σ)
    unfolding step
    step-IsCoherent = record {
      unique = λ k j l hj hl. ground (
        arith,
        act-Moved move (σ.callers i) σ.server k,
        coherent.unique k j l,
        coherent.held_marked k j,
        coherent.held_marked k l,
      );
      held_marked = λ k j h. ground (
        arith,
        act-Moved move (σ.callers i) σ.server k,
        coherent.unique k i j,
        coherent.held_marked k j,
      );
      marked_held = step-marked_held;
    }

  run_moves-IsCoherent :
      (moves : List (ℕ × Move)) (σ : System R) → IsCoherent σ → IsCoherent (run_moves r moves σ)
  unfolding run_moves
  run_moves-IsCoherent [] σ coherent = coherent
  run_moves-IsCoherent ((i, move) ∷ moves) σ coherent =
      run_moves-IsCoherent moves (step r i move σ) (step-IsCoherent i move σ coherent)

  start-IsCoherent : (s : R) → ((k : Text) → pending r k (db s) ≡ none) → IsCoherent (start s)
  start-IsCoherent s free = record {
    unique = λ k i j hi hj. ground arith;
    held_marked = λ k i h. ground arith;
    marked_held = λ k h. absurd (ground (arith, free k));
  }

  holds-holding : (k : Text) (c : Caller) → holds k c ≡ true → c ≡ holding k
  holds-holding k (holding l) h = ap holding (text_eq→eq l k h)
  holds-holding k idle h = absurd (ground arith)
  holds-holding k (asking l) h = absurd (ground arith)
  holds-holding k (waiting l) h = absurd (ground arith)

  -- Several callers of ClaimOrWait, Complete and Drop, whose Redis commands reach a server that
  -- answers in any order, start when no marker is set: at any time at most one of them holds the
  -- claim of a key.
  pub run_moves-one_holder :
      (moves : List (ℕ × Move)) (k : Text) (i j : ℕ) (s : R)
      → ((l : Text) → pending r l (db s) ≡ none)
      → (run_moves r moves (start s)).callers i ≡ holding k
      → (run_moves r moves (start s)).callers j ≡ holding k
      → i ≡ j
  run_moves-one_holder moves k i j s free hi hj =
      let coherent = run_moves-IsCoherent moves (start s) (start-IsCoherent s free) in
      coherent.unique k i j (rw hi (text_eq_refl k)) (rw hj (text_eq_refl k))

  -- Several callers of ClaimOrWait, Complete and Drop, whose Redis commands reach a server that
  -- answers in any order, start when no marker is set: at any time the marker of a key is set
  -- exactly if one of them holds its claim.
  pub run_moves-marked_iff_held :
      (moves : List (ℕ × Move)) (k : Text) (s : R)
      → ((l : Text) → pending r l (db s) ≡ none)
      → let σ = run_moves r moves (start s) in
        (is_some (pending r k (db σ.server)) ≡ true) ↔ ((i : ℕ) × (σ.callers i ≡ holding k))
  run_moves-marked_iff_held moves k s free =
      let coherent = run_moves-IsCoherent moves (start s) (start-IsCoherent s free) in
      (
        λ h. let (i, held) = coherent.marked_held k h in (i, holds-holding k _ held),
        λ (i, e). coherent.held_marked k i (rw e (text_eq_refl k)),
      )
