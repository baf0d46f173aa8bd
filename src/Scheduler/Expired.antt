-- ===== src/Scheduler/Expired.antt =====
-- Only sandboxes that are too old are cleaned up (scheduler/internal/scheduler/service.go,
-- `CleanupExpiredSandboxes`; scheduler/internal/k8sclient/client.go, `GetPodsOlderThan`).
use k8s_sched_demo.Errors.{Error, Result-cases, ok}
use k8s_sched_demo.Types.Ids.{new_sandbox_id, SandboxId}
use k8s_sched_demo.Scheduler.Cleanup.{release_all, more, broken, last, Listing, sandboxes_of}
use k8s_sched_demo.Kube.Interface.{k8s_interface}
use k8s_sched_demo.Kube.Client.{get_pods_older_than, is_older, K8sClient}
use k8s_sched_demo.Base.{
  false, is_empty, subst, codes, All-append, refl, arith, Option, ltb, Text, Bool-cases, inl, inr,
  All, ◌<◌, ℕ, [], ◌⊎◌, ◌≡◌, ◌∷◌, List,
}
use k8s_sched_demo.Scheduler.{Sys, Service}
use k8s_sched_demo.Kube.Api.{PodList, ListOptions, Pod}

abbrev pub IsAmong : Pod → List Pod → Type 0
IsAmong pod [] = ⊥
IsAmong pod (p ∷ ps) = (pod ≡ p) ⊎ IsAmong pod ps

module _ {R K : Type 0} (svc : Service R K) (elapse : K → K) (k : K8sClient K)
    (backed : svc.k8s_client ≡ k8s_interface elapse k) (cutoff : ℕ) where
  -- A cleanup that asks for the page of a token in a state also asks, in the course of its run, for
  -- the page of the second token in the second state: it is the same call, or one that follows the
  -- release of the sandboxes of a page that is not the last.
  pub data Asks : Text → Sys R K → Text → Sys R K → Type 0 where
    this_call : (token : Text) (s : Sys R K) → Asks token s token s
    next_call :
        (token : Text) (s : Sys R K) (names : List Text) (next : Text) (k₁ : K) (q : Text)
        (t : Sys R K)
        → svc.k8s_client.get_pods_older_than cutoff token s.kube ≡ (ok (names, next), k₁)
        → is_empty next ≡ false
        → Asks next (release_all svc (sandboxes_of names) (record s { kube = k₁ })) q t
        → Asks token s q t

  -- What a call for the page of a token lists.
  abbrev pub page_options : Text → ListOptions
  page_options token = record {
    label_selector = codes "managed-by=scheduler";
    limit = 100;
    continue = token;
  }

  -- A cleanup that starts from a token in a state asks for a page on which the cluster, at that very
  -- moment, lists a pod of the sandbox that was created before the cutoff.
  abbrev pub IsExpired : Text → Sys R K → SandboxId → Type 0
  IsExpired token s x =
      (q : Text) × (t : Sys R K) × Asks token s q t
      × (page : PodList) × ((k.clientset.list_pods k.namespace (page_options q) t.kube).0 ≡ ok page)
      × (pod : Pod) × IsAmong pod page.items
      × (pod.creation_timestamp < cutoff)
      × (new_sandbox_id pod.name ≡ ok x)

  sandboxes_of-All :
      (P : SandboxId → Type 0) (pods : List Pod)
      → ((pod : Pod) (x : SandboxId)
          → IsAmong pod pods
          → pod.creation_timestamp < cutoff
          → new_sandbox_id pod.name ≡ ok x
          → P x)
      → All P (sandboxes_of (is_older cutoff pods))
  unfolding sandboxes_of
  sandboxes_of-All P [] h = tt
  sandboxes_of-All P (pod ∷ pods) h =
      let later = sandboxes_of-All P pods (λ p x among. h p x (inr among)) in
      elim (Bool-cases (ltb pod.creation_timestamp cutoff)) [
        | inr young ↦ rw young later
        | inl old ↦ elim (Result-cases (new_sandbox_id pod.name)) [
          | inl (x, e) ↦
              rw old (rw (e, sandboxes_of) (h pod x (inl refl) (ground (arith, old)) e, later))
          | inr (e, bad) ↦ rw old (rw (bad, sandboxes_of) later)
        ]
      ]

  page-IsExpired :
      (token next : Text) (s : Sys R K) (k₁ : K) (names : List Text)
      → svc.k8s_client.get_pods_older_than cutoff token s.kube ≡ (ok (names, next), k₁)
      → All (IsExpired token s) (sandboxes_of names)
  unfolding k8s_interface get_pods_older_than
  page-IsExpired token next s k₁ names got =
      elim (Result-cases (k.clientset.list_pods k.namespace (page_options token) s.kube).0) [
        | inl (page, e) ↦
            let shown : is_older cutoff page.items ≡ names = ground (arith, backed, e, got) in
            subst (λ ns. All (IsExpired token s) (sandboxes_of ns)) shown
              (sandboxes_of-All (IsExpired token s) page.items λ pod x among old parsed.
                (token, s, this_call token s, page, e, pod, among, old, parsed))
        | inr (bad, e) ↦ absurd (ground (arith, backed, e, got))
      ]

  All-map :
      (P Q : SandboxId → Type 0) (xs : List SandboxId)
      → ((x : SandboxId) → P x → Q x)
      → All P xs
      → All Q xs
  All-map P Q [] f h = tt
  All-map P Q (x ∷ xs) f h = (f x h.0, All-map P Q xs f h.1)

  -- A cleanup lists the pods through the Kubernetes client, page by page. Every sandbox that it is
  -- to release is one that the cluster has shown to it: in the course of its run it asks for a page
  -- on which the cluster, in the state of that very call, lists a pod of the sandbox that was
  -- created before the cutoff.
  pub Listing-IsExpired :
      {token : Text} {s end : Sys R K} {xs : List SandboxId} {e : Option Error} {n : ℕ}
      → Listing svc cutoff token s xs e n end
      → All (IsExpired token s) xs
  Listing-IsExpired (last token s names k₁ got) = page-IsExpired token [] s k₁ names got
  Listing-IsExpired (broken token s e k₁ got) = tt
  Listing-IsExpired (more token s names next k₁ xs e n end got full later) =
      let s₁ = release_all svc (sandboxes_of names) (record s { kube = k₁ }) in
      All-append (IsExpired token s) (sandboxes_of names) xs
        (page-IsExpired token next s k₁ names got)
        (All-map (IsExpired next s₁) (IsExpired token s) xs
          (λ x (q, t, asks, page, e₁, pod, among, old, parsed). (
            q,
            t,
            next_call token s names next k₁ q t got full asks,
            page,
            e₁,
            pod,
            among,
            old,
            parsed,
          ))
          (Listing-IsExpired later))
