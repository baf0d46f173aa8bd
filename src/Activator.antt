-- ===== src/Activator.antt =====
-- activator/internal/service/activator.go and activator/internal/client/client.go: a request for a
-- project that has no route yet waits for a sandbox and is then passed on to it.
pub mod Retries
pub mod Forwarding
pub mod Server
use k8s_sched_demo.Project.{creating, unspecified, Status, active, Response}
use k8s_sched_demo.Errors.{new, ok, format, err, is_some, Result}
use k8s_sched_demo.Base.{
  not, zero, suc, none, true, text_eq, strip_prefix, some, ltb, is_empty, inl, ◌||◌, ◌++◌, inr,
  if◌then◌else◌, false, [], ◌⊎◌, ◌∷◌, ℕ, codes, Text, String, Option, List, Bool,
}

-- http.Header, with each key in its canonical form.
abbrev pub Headers : Type 0
Headers = List (Text × List Text)

-- What the code reads and writes of http.Request; the URL of an incoming request in two parts.
pub record Incoming : Type 0 where
  pub method : Text
  pub path : Text
  pub raw_query : Text
  pub headers : Headers
  pub body : Text

pub record Outgoing : Type 0 where
  pub method : Text
  pub url : Text
  pub headers : Headers
  pub body : Text

-- http.Response, and what the handler writes; `body` is what is read of it before its end or an
-- error.
pub record Reply : Type 0 where
  pub status_code : ℕ
  pub headers : Headers
  pub body : Text

-- An error as the retries look at it: err.Error(), and Temporary() if it is a net.Error.
pub record HttpError : Type 0 where
  pub message : Text
  pub temporary : Option Bool

-- How a request fails: with an error as it came, or wrapped in "max retries reached".
pub data Failure : Type 0 where
  plain : HttpError → Failure
  max_retries_reached : HttpError → Failure

-- The network and the clock: `H` is their state. `round_trip` is Do of the HTTP
-- client, `pause` waits for a time in ns, and returns the
-- context's error if the context ends first. `accepts` is whether http.NewRequest takes a method
-- and a URL. `ask_scheduler` is the call GetProjectSandbox of the generated client.
pub record Network (H : Type 0) : Type 0 where
  pub round_trip : Outgoing → H → (HttpError ⊎ Reply) × H
  pub pause : ℕ → H → Option HttpError × H
  pub accepts : Text → Text → Bool
  pub ask_scheduler : Text → Bool → H → Result Response × H

-- `scale` is the product with the backoff factor, a float64.
pub record ActivatorService : Type 0 where
  pub max_retries : ℕ
  pub initial_backoff : ℕ
  pub max_backoff : ℕ
  pub scale : ℕ → ℕ

-- strings.Contains, arguments swapped.
unfoldable pub occurs_in : Text → Text → Bool
occurs_in t [] = is_some (strip_prefix t [])
occurs_in t (c ∷ s) = is_some (strip_prefix t (c ∷ s)) || occurs_in t s

abbrev pub is_temporary : Option Bool → Bool
is_temporary none = false
is_temporary (some b) = b

unfoldable pub is_retryable_error : HttpError → Bool
is_retryable_error e =
    occurs_in (codes "no such host") e.message
    || occurs_in (codes "lookup") e.message
    || occurs_in (codes "dns") e.message
    || occurs_in (codes "connection refused") e.message
    || occurs_in (codes "connection reset") e.message
    || occurs_in (codes "i/o timeout") e.message
    || is_temporary e.temporary

-- The header's first value, or nothing.
unfoldable pub header_get : Text → Headers → Text
header_get key [] = []
header_get key ((k, values) ∷ headers) =
    if text_eq k key then elim values [ [] ↦ [] | v ∷ vs ↦ v ] else header_get key headers

unfoldable pub header_add : Text → Text → Headers → Headers
header_add key value [] = (key, value ∷ []) ∷ []
header_add key value ((k, values) ∷ headers) =
    if text_eq k key
    then (k, values ++ value ∷ []) ∷ headers
    else (k, values) ∷ header_add key value headers

unfoldable pub add_values : Text → List Text → Headers → Headers
add_values key [] headers = headers
add_values key (value ∷ values) headers = add_values key values (header_add key value headers)

-- The two loops that copy headers.
unfoldable pub copy_headers : Headers → Headers → Headers
copy_headers [] to = to
copy_headers ((key, values) ∷ from) to = copy_headers from (add_values key values to)

abbrev pub by_status : Status → Text → Result Text
by_status active hostname = ok hostname
by_status unspecified hostname = err (new "sandbox not active")
by_status creating hostname = err (new "sandbox not active")
by_status Status.not_found hostname = err (new "sandbox not active")
by_status Status.error hostname = err (new "sandbox not active")

abbrev pub read_active : Result Response → Result Text
read_active (err e) = err (format "failed to get sandbox" e)
read_active (ok response) = by_status response.status response.hostname

-- SchedulerClient.GetSandbox
unfoldable pub get_active_sandbox : {H : Type 0} → Network H → Text → H → Result Text × H
get_active_sandbox net project_id s =
    let (result, s₁) = net.ask_scheduler project_id true s in (read_active result, s₁)

-- http.Error
abbrev pub http_error : String → ℕ → Reply
http_error text code = record {
  status_code = code;
  headers =
      (codes "Content-Type", codes "text/plain; charset=utf-8" ∷ [])
      ∷ (codes "X-Content-Type-Options", codes "nosniff" ∷ [])
      ∷ [];
  body = codes text ++ 10 ∷ [];
}

unfoldable pub target_url : Text → Incoming → Text
target_url hostname r =
    let url = codes "http://" ++ (hostname ++ (codes ":8000" ++ r.path)) in
    if is_empty r.raw_query then url else url ++ (codes "?" ++ r.raw_query)

-- The request for the sandbox, with the headers of the one that came in.
abbrev pub forwarded_request : Text → Incoming → Outgoing
forwarded_request hostname r = record {
  method = r.method;
  url = target_url hostname r;
  headers = copy_headers r.headers [];
  body = r.body;
}

abbrev pub write_reply : Failure ⊎ Reply → Reply
write_reply (inl e) = http_error "Failed to forward request" 500
write_reply (inr reply) = record {
  status_code = reply.status_code;
  headers = copy_headers reply.headers [];
  body = reply.body;
}

module _ (svc : ActivatorService) where
  unfoldable pub next_backoff : ℕ → ℕ
  next_backoff backoff =
      let scaled = svc.scale backoff in
      if ltb svc.max_backoff scaled then svc.max_backoff else scaled

  module _ {H : Type 0} (net : Network H) where
    -- The loop of `doWithRetry`, from an attempt that `retries` others may follow; the wait that
    -- begins each later turn of the loop stands at the end of the turn before it.
    unfoldable pub retry_loop : ℕ → ℕ → Outgoing → H → (Failure ⊎ Reply) × H
    retry_loop zero backoff req s =
        let (result, s₁) = net.round_trip req s in
        elim result [
          | inr reply ↦ (inr reply, s₁)
          | inl e ↦ elim (is_retryable_error e) [
            | false ↦ (inl (plain e), s₁)
            | true ↦ (inl (max_retries_reached e), s₁)
          ]
        ]
    retry_loop (suc retries) backoff req s =
        let (result, s₁) = net.round_trip req s in
        elim result [
          | inr reply ↦ (inr reply, s₁)
          | inl e ↦ elim (is_retryable_error e) [
            | false ↦ (inl (plain e), s₁)
            | true ↦
                let (ended, s₂) = net.pause backoff s₁ in
                elim ended [
                  | some reason ↦ (inl (plain reason), s₂)
                  | none ↦ retry_loop retries (next_backoff backoff) req s₂
                ]
          ]
        ]

    unfoldable pub do_with_retry : Outgoing → H → (Failure ⊎ Reply) × H
    do_with_retry = retry_loop svc.max_retries svc.initial_backoff

    -- `HandleRequest` once the scheduler has answered.
    unfoldable pub forward : Result Text → Incoming → H → Reply × H
    forward (err e) r s = (http_error "Failed to get sandbox" 500, s)
    forward (ok hostname) r s =
        if not (net.accepts r.method (target_url hostname r))
        then (http_error "Failed to create request" 500, s)
        else (let (result, s₁) = do_with_retry (forwarded_request hostname r) s in
            (write_reply result, s₁))

    unfoldable pub handle_request : Incoming → H → Reply × H
    handle_request r s =
        let project_id = header_get (codes "Project-Id") r.headers in
        if is_empty project_id
        then (http_error "No project ID found" 400, s)
        else (let (sandbox, s₁) = get_active_sandbox net project_id s in forward sandbox r s₁)
