-- ===== src/Persistence/Store/AllMappings.antt =====
-- All mappings at once (scheduler/internal/persistence/redis.go, `GetAllProjectSandboxMappings`).
pub mod Unique
use k8s_sched_demo.Persistence.Store.Effects.{get_project_sandbox-reply}
use k8s_sched_demo.Types.Ids.{new_sandbox_id, new_project_id, SandboxId, ProjectId}
use k8s_sched_demo.Persistence.Store.{
  get_project_sandbox, read_sandbox, form_project_sandbox_key, form_all_projects_set_key,
  RedisStore,
}
use k8s_sched_demo.Persistence.Redis.{Queued, reply_of, IsServed, Db, Redis}
use k8s_sched_demo.Errors.{Error, redis_nil, is_redis_nil, Result-cases, wrap, err, ok, Result}
use k8s_sched_demo.Base.{
  ap, ◌∙◌, text_eq_iff, refl, lookup-insert, insert, inr, ◌||◌, inl, arith, ◌⊎◌, text_eq, [],
  lookup, if◌then◌else◌, false, ◌≡◌, ◌∷◌, none, map, Bool, some, Text, Option, List,
}

-- A map[ProjectID]SandboxID.
abbrev pub Mappings : Type 0
Mappings = List (ProjectId × SandboxId)

-- The loop over the replies: a missing key and an invalid sandbox ID are skipped.
abbrev pub absorb : ProjectId → Result Text → Mappings → Result Mappings
absorb project_id (err e) result =
    if is_redis_nil e then ok result else err (wrap "failed to get sandbox for project" e)
absorb project_id (ok sandbox_id_str) result = elim (new_sandbox_id sandbox_id_str) [
  | err e ↦ ok result
  | ok sandbox_id ↦ ok (insert project_id sandbox_id result)
]

-- Go visits the commands in any order; here they come in the order of the set's members. A member
-- that is no project ID has no command, and there is a reply for each command.
unfoldable pub collect : List Text → List (Result Text) → Mappings → Result Mappings
collect [] replies result = ok result
collect (project_id_str ∷ strs) replies result = elim (new_project_id project_id_str) [
  | err e ↦ collect strs replies result
  | ok project_id ↦ elim replies [
    | [] ↦ ok result
    | reply ∷ replies' ↦ elim (absorb project_id reply result) [
      | err e ↦ err e
      | ok result' ↦ collect strs replies' result'
    ]
  ]
]

module _ {R : Type 0} (r : RedisStore R) where
  -- The keys that the pipeline gets, for the members that are project IDs.
  unfoldable pub keys_to_get : List Text → List Text
  keys_to_get [] = []
  keys_to_get (project_id_str ∷ strs) = elim (new_project_id project_id_str) [
    | err e ↦ keys_to_get strs
    | ok project_id ↦ form_project_sandbox_key r project_id ∷ keys_to_get strs
  ]

  unfoldable pub get_mappings_of : List Text → R → Result Mappings × R
  get_mappings_of [] s = (ok [], s)
  get_mappings_of (str ∷ strs) s =
      let (replies, s') = r.client.exec (map Queued.get (keys_to_get (str ∷ strs))) s in
      (
        elim replies.error [
          | none ↦ collect (str ∷ strs) replies.each []
          | some e ↦
              if is_redis_nil e
              then collect (str ∷ strs) replies.each []
              else err (wrap "failed to get all project-sandbox mappings" e)
        ],
        s',
      )

  unfoldable pub get_all_project_sandbox_mappings : R → Result Mappings × R
  get_all_project_sandbox_mappings s =
      let (members, s₁) = r.client.s_members (form_all_projects_set_key r) s in
      elim members [
        | err e ↦ (err (wrap "failed to get all project IDs" e), s₁)
        | ok project_id_strs ↦ get_mappings_of project_id_strs s₁
      ]

-- What the server does with a pipeline of GET commands: it replies to each, and the error is that
-- of a missing key or none.
pub record IsPipelined {R : Type 0} (redis : Redis R) (served : IsServed redis) : Type 0 where
  pub members_db : (k : Text) (s : R) → served.db (redis.s_members k s).1 ≡ served.db s
  pub gets_each :
      (ks : List Text) (s : R)
      → (redis.exec (map Queued.get ks) s).0.each ≡ map (λ k. reply_of ((served.db s).value k)) ks
  pub gets_error :
      (ks : List Text) (s : R)
      → ((redis.exec (map Queued.get ks) s).0.error ≡ none)
        ⊎ ((redis.exec (map Queued.get ks) s).0.error ≡ some redis_nil)

abbrev pub to_option {ℓ} : {A : Type ℓ} → Result A → Option A
to_option (ok a) = some a
to_option (err e) = none

abbrev or_else {ℓ} : {A : Type ℓ} → Option A → Option A → Option A
or_else none d = d
or_else (some a) d = some a

-- Whether a project is named by one of the members.
unfoldable pub names : ProjectId → List Text → Bool
names p [] = false
names p (str ∷ strs) =
    elim (new_project_id str) [ err e ↦ false | ok q ↦ text_eq q p ] || names p strs

collect-step :
    (str : Text) (strs : List Text) (q : ProjectId) (reply : Result Text)
    (replies : List (Result Text)) (acc acc' : Mappings)
    → new_project_id str ≡ ok q
    → absorb q reply acc ≡ ok acc'
    → collect (str ∷ strs) (reply ∷ replies) acc ≡ collect strs replies acc'
unfolding collect
collect-step str strs q reply replies acc acc' e got = rw (e, collect, got)

collect-skip :
    (str : Text) (strs : List Text) (e : Error) (replies : List (Result Text)) (acc : Mappings)
    → new_project_id str ≡ err e
    → collect (str ∷ strs) replies acc ≡ collect strs replies acc
unfolding collect
collect-skip str strs e replies acc h = rw (h, collect)

keys-skip :
    {R : Type 0} (r : RedisStore R) (str : Text) (strs : List Text) (e : Error)
    → new_project_id str ≡ err e
    → keys_to_get r (str ∷ strs) ≡ keys_to_get r strs
unfolding keys_to_get
keys-skip r str strs e h = rw (h, keys_to_get)

absorb_lem :
    (q : ProjectId) (v : Option Text) (acc : Mappings)
    → (acc' : Mappings) × (absorb q (reply_of v) acc ≡ ok acc')
      × ((p : ProjectId)
          → lookup p acc' ≡ (
              if text_eq q p
              then or_else (to_option (read_sandbox (reply_of v))) (lookup p acc)
              else lookup p acc))
absorb_lem q none acc = (acc, refl, λ p. ground arith)
absorb_lem q (some t) acc = elim (Result-cases (new_sandbox_id t)) [
  | inl (x, e) ↦
      (insert q x acc, ground (arith, e), λ p. ground (arith, e, lookup-insert q p x acc))
  | inr (x, e) ↦ (acc, ground (arith, e), λ p. ground (arith, e))
]

module _ {R : Type 0} (r : RedisStore R) (d : Db) (p : ProjectId) where
  abbrev value_at : ProjectId → Option Text
  value_at q = d.value (form_project_sandbox_key r q)

  abbrev on_record : Option SandboxId
  on_record = to_option (read_sandbox (reply_of (value_at p)))

  collect_lem :
      (strs : List Text) (acc : Mappings)
      → (m : Mappings) × (collect strs (map (λ k. reply_of (d.value k)) (keys_to_get r strs)) acc
          ≡ ok m)
        × (lookup p m ≡ (if names p strs then or_else on_record (lookup p acc) else lookup p acc))
  unfolding collect keys_to_get names
  collect_lem [] acc = (acc, refl, refl)
  collect_lem (str ∷ strs) acc = elim (Result-cases (new_project_id str)) [
    | inl (q, e) ↦
        let (acc', got, here) = absorb_lem q (value_at q) acc in
        let (m, collected, found) = collect_lem strs acc' in
        (
          m,
          rw (e, keys_to_get)
              (collect-step str strs q (reply_of (value_at q)) _ acc acc' e got ∙ collected),
          ground (arith, e, found, here p, text_eq_iff q p),
        )
    | inr (x, e) ↦
        let (m, collected, found) = collect_lem strs acc in
        (
          m,
          collect-skip str strs x (map (λ k. reply_of (d.value k)) (keys_to_get r (str ∷ strs))) acc
                e
              ∙ ap (λ ks. collect strs (map (λ k. reply_of (d.value k)) ks) acc)
                  (keys-skip r str strs x e)
              ∙ collected,
          ground (arith, e, found),
        )
  ]

module _ {R : Type 0} (r : RedisStore R) (served : IsServed r.client)
    (pipelined : IsPipelined r.client served) where
  open served use {db}

  or_else-none : (o : Option SandboxId) → or_else o none ≡ o
  or_else-none none = refl
  or_else-none (some x) = refl

  of_members :
      (strs : List Text) (p : ProjectId) (s : R)
      → (m : Mappings) × ((get_mappings_of r strs s).0 ≡ ok m)
        × (lookup p m ≡ (if names p strs then on_record r (db s) p else none))
  unfolding get_mappings_of names lookup
  of_members [] p s = ([], refl, refl)
  of_members (str ∷ strs) p s =
      let (m, collected, found) = collect_lem r (db s) p (str ∷ strs) [] in
      let ks = keys_to_get r (str ∷ strs) in
      (
        m,
        elim (pipelined.gets_error ks s) [
          | inl e ↦ rw (e, pipelined.gets_each ks s) collected
          | inr e ↦ rw (e, pipelined.gets_each ks s) collected
        ],
        ground (arith, found, or_else-none (on_record r (db s) p)),
      )

  -- On a server that replies to each command of a pipeline, when the set of projects lists some
  -- members, GetAllProjectSandboxMappings succeeds, and its map has for each project what
  -- GetProjectSandbox finds for it, if a member names the project, and nothing otherwise.
  pub get_all-lookup :
      (strs : List Text) (p : ProjectId) (s : R)
      → (r.client.s_members (form_all_projects_set_key r) s).0 ≡ ok strs
      → (m : Mappings) × ((get_all_project_sandbox_mappings r s).0 ≡ ok m)
        × (lookup p m ≡ (if names p strs then to_option (get_project_sandbox r p s).0 else none))
  unfolding get_all_project_sandbox_mappings
  get_all-lookup strs p s listed =
      let s₁ = (r.client.s_members (form_all_projects_set_key r) s).1 in
      let (m, got, found) = of_members strs p s₁ in
      (
        m,
        ground (arith, listed, got),
        ground (
          arith,
          found,
          ap (λ d. on_record r d p) (pipelined.members_db (form_all_projects_set_key r) s),
          ap to_option (get_project_sandbox-reply r served p s),
        ),
      )
