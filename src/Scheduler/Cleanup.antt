-- ===== src/Scheduler/Cleanup.antt =====
-- The cleanup of old sandboxes over the pages of a listing (scheduler/internal/scheduler/service.go,
-- `CleanupExpiredSandboxes`).
use k8s_sched_demo.Errors.{Result-cases, format, ok, err, Error}
use k8s_sched_demo.Types.Ids.{new_sandbox_id, SandboxId}
use k8s_sched_demo.Base.{
  length-append, inr, ap, ◌∙◌, inl, zero, ◌<◌, arith, suc, ◌++◌, false, is_empty, some, none, ◌≤◌,
  length, ◌+◌, [], Option, ◌∷◌, ℕ, Text, List, ◌≡◌,
}
use k8s_sched_demo.Scheduler.{Sys, release_pods, cleanup_loop, Service, release_sandbox}

-- The sandboxes that a page of pod names stands for.
unfoldable pub sandboxes_of : List Text → List SandboxId
sandboxes_of [] = []
sandboxes_of (name ∷ names) = elim (new_sandbox_id name) [
  | err e ↦ sandboxes_of names
  | ok x ↦ x ∷ sandboxes_of names
]

module _ {R K : Type 0} (svc : Service R K) where
  unfoldable pub release_all : List SandboxId → Sys R K → Sys R K
  release_all [] s = s
  release_all (x ∷ xs) s = release_all xs (release_sandbox svc x s)

  pub release_pods-release_all :
      (names : List Text) (total : ℕ) (s : Sys R K)
      → release_pods svc names total s
        ≡ (total + length (sandboxes_of names), release_all (sandboxes_of names) s)
  unfolding release_pods release_all sandboxes_of
  release_pods-release_all [] total s = ground arith
  release_pods-release_all (name ∷ names) total s = elim (Result-cases (new_sandbox_id name)) [
    | inl (x, e) ↦
        rw (e, release_pods, sandboxes_of)
          (release_pods-release_all names (total + 1) (release_sandbox svc x s)
            ∙ ap (λ n. (n, release_all (sandboxes_of names) (release_sandbox svc x s)))
                (omega arith))
    | inr (x, e) ↦ rw (e, release_pods, sandboxes_of) (release_pods-release_all names total s)
  ]

  -- The calls of `GetPodsOlderThan` from a token on answer with these pages, when the sandboxes of
  -- each page are released before the next is asked for: the sandboxes of all pages, the error that
  -- ends the listing if there is one, the number of calls, and the state at the end.
  pub data Listing (cutoff : ℕ)
      : Text → Sys R K → List SandboxId → Option Error → ℕ → Sys R K → Type 0 where
    last :
        (token : Text) (s : Sys R K) (names : List Text) (k₁ : K)
        → svc.k8s_client.get_pods_older_than cutoff token s.kube ≡ (ok (names, []), k₁)
        → Listing cutoff token s
            (sandboxes_of names)
            none
            1
            (release_all (sandboxes_of names) (record s { kube = k₁ }))
    broken :
        (token : Text) (s : Sys R K) (e : Error) (k₁ : K)
        → svc.k8s_client.get_pods_older_than cutoff token s.kube ≡ (err e, k₁)
        → Listing cutoff token s []
            (some (format "failed to get old pods" e))
            1
            (record s { kube = k₁ })
    more :
        (token : Text) (s : Sys R K) (names : List Text) (next : Text) (k₁ : K)
        (xs : List SandboxId) (e : Option Error) (n : ℕ) (end : Sys R K)
        → svc.k8s_client.get_pods_older_than cutoff token s.kube ≡ (ok (names, next), k₁)
        → is_empty next ≡ false
        → Listing cutoff next (release_all (sandboxes_of names) (record s { kube = k₁ })) xs e n end
        → Listing cutoff token s (sandboxes_of names ++ xs) e (suc n) end

  Listing-pos :
      {cutoff : ℕ} {token : Text} {s end : Sys R K} {xs : List SandboxId} {e : Option Error} {n : ℕ}
      → Listing cutoff token s xs e n end
      → 0 < n
  Listing-pos (last token s names k₁ p) = omega arith
  Listing-pos (broken token s e k₁ p) = omega arith
  Listing-pos (more token s names next k₁ xs e n end p q l) = omega arith

  -- Whatever pages the cluster answers with, the cleanup ends once it has as much fuel as there are
  -- pages: it has released exactly the sandboxes of all pages, in order, and returns how many they
  -- are, with the error that broke the listing off if one did.
  pub cleanup_loop-Listing :
      (cutoff fuel total : ℕ) {token : Text} {s end : Sys R K} {xs : List SandboxId}
      {e : Option Error} {n : ℕ}
      → Listing cutoff token s xs e n end
      → n ≤ fuel
      → cleanup_loop svc fuel cutoff token total s ≡ some (total + length xs, e, end)
  unfolding cleanup_loop
  cleanup_loop-Listing cutoff zero total l h = absurd (omega (arith, Listing-pos l))
  cleanup_loop-Listing cutoff (suc fuel) total (last token s names k₁ p) h =
      ground (arith, release_pods-release_all names total (record s { kube = k₁ }))
  cleanup_loop-Listing cutoff (suc fuel) total (broken token s e k₁ p) h = ground arith
  cleanup_loop-Listing cutoff (suc fuel) total (more token s names next k₁ xs e n end p q l) h =
      ground (
        arith,
        release_pods-release_all names total (record s { kube = k₁ }),
        cleanup_loop-Listing cutoff fuel (total + length (sandboxes_of names)) l,
        length-append (sandboxes_of names) xs,
      )
