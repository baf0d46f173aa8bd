-- ===== src/Activator/Forwarding.antt =====
-- Where the activator sends a request
-- (activator/internal/service/activator.go, `HandleRequest`).
use k8s_sched_demo.Activator.Retries.{do_with_retry-bounds, unwatched, watched}
use k8s_sched_demo.Project.{creating, unspecified, Status, active, Response}
use k8s_sched_demo.Errors.{ok, err, Result}
use k8s_sched_demo.Base.{
  inr, refl, inl, is_empty, Bool-cases, if◌then◌else◌, ap, All, ◌+◌, ◌≤◌, length, ◌⊎◌, [], ◌∷◌, ◌≡◌,
  true, codes, List, Text,
}
use k8s_sched_demo.Activator.{
  forwarded_request, read_active, http_error, by_status, forward, target_url, Outgoing, header_get,
  Incoming, get_active_sandbox, handle_request, Network, ActivatorService,
}

-- Every request goes to the URL, by the method.
abbrev pub AllTo : Text → Text → List Outgoing → Type 0
AllTo url method sent = All (λ (req : Outgoing). (req.url ≡ url) × (req.method ≡ method)) sent

AllTo-of_same :
    (req : Outgoing) (sent : List Outgoing)
    → All (λ (q : Outgoing). q ≡ req) sent
    → AllTo req.url req.method sent
AllTo-of_same req [] h = tt
AllTo-of_same req (q ∷ sent) (e, h) =
    ((ap (λ (x : Outgoing). x.url) e, ap (λ (x : Outgoing). x.method) e), AllTo-of_same req sent h)

module _ (svc : ActivatorService) {H : Type 0} (net : Network H) (r : Incoming) where
  -- What may be sent for a sandbox of a status.
  abbrev pub PermittedAt : Status → Text → List Outgoing → Type 0
  PermittedAt status hostname sent =
      (sent ≡ [])
      ⊎ ((status ≡ active)
          × (length sent ≤ svc.max_retries + 1)
          × AllTo (target_url hostname r) r.method sent)

  -- What may be sent for a request with a project's ID in its header and the scheduler's answer.
  abbrev pub Permitted : Text → Result Response → List Outgoing → Type 0
  Permitted [] answer sent = sent ≡ []
  Permitted (c ∷ p) (err e) sent = sent ≡ []
  Permitted (c ∷ p) (ok response) sent = PermittedAt response.status response.hostname sent

  status-PermittedAt :
      (status : Status) (hostname : Text) (h : H)
      → PermittedAt status hostname
          (forward svc (watched net) (by_status status hostname) r (unwatched svc net h)).1.requests
  unfolding forward
  status-PermittedAt active hostname h =
      elim (Bool-cases (net.accepts r.method (target_url hostname r))) [
        | inl accepted ↦
            let kept = do_with_retry-bounds svc net (forwarded_request hostname r) h in
            rw accepted
              (inr (refl, kept.1, AllTo-of_same (forwarded_request hostname r) _ kept.3.0))
        | inr refused ↦ rw refused (inl refl)
      ]
  status-PermittedAt unspecified hostname h = inl refl
  status-PermittedAt creating hostname h = inl refl
  status-PermittedAt Status.not_found hostname h = inl refl
  status-PermittedAt Status.error hostname h = inl refl

  answer-Permitted :
      (p : Text) (answer : Result Response) (h h₁ : H)
      → Permitted p answer
          (if is_empty p
            then (http_error "No project ID found" 400, unwatched svc net h)
            else forward svc (watched net) (read_active answer) r (unwatched svc net h₁)).1.requests
  unfolding forward
  answer-Permitted [] answer h h₁ = refl
  answer-Permitted (c ∷ p) (err e) h h₁ = refl
  answer-Permitted (c ∷ p) (ok response) h h₁ =
      status-PermittedAt response.status response.hostname h₁

  -- HandleRequest sends nothing for a request without a project ID or when the scheduler fails;
  -- otherwise it sends nothing, or the sandbox is ACTIVE and it sends at most one request more than
  -- there are retries, each to the URL made of the hostname in the scheduler's answer and by the
  -- method of the incoming request.
  pub handle_request-Permitted :
      (h : H)
      → let project_id = header_get (codes "Project-Id") r.headers in
        Permitted project_id
          (net.ask_scheduler project_id true h).0
          (handle_request svc (watched net) r (unwatched svc net h)).1.requests
  unfolding handle_request get_active_sandbox
  handle_request-Permitted h =
      let project_id = header_get (codes "Project-Id") r.headers in
      let asked = net.ask_scheduler project_id true h in
      answer-Permitted project_id asked.0 h asked.1
