-- ===== src/Persistence/Store/AllMappings/Unique.antt =====
-- The map that `GetAllProjectSandboxMappings` returns (scheduler/internal/persistence/redis.go) has
-- at most one entry for a project.
use k8s_sched_demo.Persistence.Redis.{Queued, Replies}
use k8s_sched_demo.Errors.{Error, Result-cases, wrap, is_redis_nil, err, ok, Result}
use k8s_sched_demo.Base.{
  arith, if◌then◌else◌, some, none, insert-IsMap, Option, inr, subst, map, inl, Bool-cases, [], ◌∷◌,
  ◌≡◌, IsMap, Text, List,
}
use k8s_sched_demo.Types.Ids.{new_project_id, new_sandbox_id, ProjectId}
use k8s_sched_demo.Persistence.Store.AllMappings.{
  keys_to_get, get_mappings_of, absorb, Mappings, get_all_project_sandbox_mappings, collect,
}
use k8s_sched_demo.Persistence.Store.{form_all_projects_set_key, RedisStore}

abbrev IsMapResult : Result Mappings → Type 0
IsMapResult (err e) = Unit {0}
IsMapResult (ok m) = IsMap m

absorb-IsMapResult :
    (q : ProjectId) (reply : Result Text) (acc : Mappings)
    → IsMap acc
    → IsMapResult (absorb q reply acc)
absorb-IsMapResult q (err e) acc h = elim (Bool-cases (is_redis_nil e)) [
  | inl nil ↦ rw nil h
  | inr other ↦ rw other tt
]
absorb-IsMapResult q (ok t) acc h = elim (Result-cases (new_sandbox_id t)) [
  | inl (x, e) ↦ rw (e, IsMapResult) (insert-IsMap q x acc h)
  | inr (x, e) ↦ rw (e, IsMapResult) h
]

bind-IsMapResult :
    (result : Result Mappings) (next : Mappings → Result Mappings)
    → IsMapResult result
    → ((m : Mappings) → IsMap m → IsMapResult (next m))
    → IsMapResult (elim result [ err e ↦ err e | ok m ↦ next m ])
bind-IsMapResult (err e) next h then_next = tt
bind-IsMapResult (ok m) next h then_next = then_next m h

collect-IsMapResult :
    (strs : List Text) (replies : List (Result Text)) (acc : Mappings)
    → IsMap acc
    → IsMapResult (collect strs replies acc)
unfolding collect
collect-IsMapResult [] replies acc h = h
collect-IsMapResult (str ∷ strs) [] acc h = elim (Result-cases (new_project_id str)) [
  | inr (x, e) ↦ rw (e, collect) (collect-IsMapResult strs [] acc h)
  | inl (q, e) ↦ rw (e, collect) h
]
collect-IsMapResult (str ∷ strs) (reply ∷ replies) acc h =
    elim (Result-cases (new_project_id str)) [
      | inr (x, e) ↦ rw (e, collect) (collect-IsMapResult strs (reply ∷ replies) acc h)
      | inl (q, e) ↦
          rw (e, collect)
            (bind-IsMapResult (absorb q reply acc) (collect strs replies)
              (absorb-IsMapResult q reply acc h) (λ m g. collect-IsMapResult strs replies m g))
    ]

module _ {R : Type 0} (r : RedisStore R) where
  get_mappings_of-IsMapResult :
      (strs : List Text) (s : R) → IsMapResult (get_mappings_of r strs s).0
  unfolding get_mappings_of
  get_mappings_of-IsMapResult [] s = tt
  get_mappings_of-IsMapResult (str ∷ strs) s = by_error replies.error
    where
      replies : Replies
      replies = (r.client.exec (map Queued.get (keys_to_get r (str ∷ strs))) s).0

      by_error :
          (error : Option Error)
          → IsMapResult (elim error [
            | none ↦ collect (str ∷ strs) replies.each []
            | some e ↦
                if is_redis_nil e
                then collect (str ∷ strs) replies.each []
                else err (wrap "failed to get all project-sandbox mappings" e)
          ])
      by_error none = collect-IsMapResult (str ∷ strs) replies.each [] tt
      by_error (some e) = elim (Bool-cases (is_redis_nil e)) [
        | inl nil ↦ rw nil (collect-IsMapResult (str ∷ strs) replies.each [] tt)
        | inr other ↦ rw other tt
      ]

  pub get_all-IsMap :
      (m : Mappings) (s : R) → (get_all_project_sandbox_mappings r s).0 ≡ ok m → IsMap m
  unfolding get_all_project_sandbox_mappings
  get_all-IsMap m s got =
      let members = r.client.s_members (form_all_projects_set_key r) s in
      elim (Result-cases members.0) [
        | inl (strs, e) ↦
            let whole : (get_mappings_of r strs members.1).0 ≡ ok m = ground (arith, e, got) in
            subst IsMapResult whole (get_mappings_of-IsMapResult strs members.1)
        | inr (x, e) ↦ absurd (ground (arith, e, got))
      ]
