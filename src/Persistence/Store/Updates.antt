-- ===== src/Persistence/Store/Updates.antt =====
-- The messages on the update channel (scheduler/internal/persistence/redis.go,
-- `SubscribeToProjectSandboxUpdates`), as their publishers write them and as a subscriber reads them.
use mathlib.Core.List.{append_assoc}
use k8s_sched_demo.Persistence.Store.Effects.{set_project_sandbox-db, remove-db}
use k8s_sched_demo.Persistence.Redis.{Db, put, apply, apply_all, IsServed}
use k8s_sched_demo.Types.Ids.Laws.{new_sandbox_id-IsSandboxId, new_project_id-IsProjectId}
use k8s_sched_demo.Errors.{ok, err}
use k8s_sched_demo.Persistence.Store.{
  remove_sandbox_mapping, project_update_channel, set_project_sandbox, find_project_for_sandbox,
  set_commands, remove_commands, RedisStore, update_message, remove_message,
}
use k8s_sched_demo.Types.Ids.{
  is_valid, new_sandbox_id, new_project_id, IsSandboxId, IsProjectId, SandboxId, ProjectId,
}
use k8s_sched_demo.Base.{
  refl, ◌∙◌, ap, arith, ◌++◌, codes, if◌then◌else◌, cut-append, true, false, ◌≡◌, [], some, Avoids,
  none, Bool, ◌∷◌, text_eq, Option, ℕ, cut, Text, List,
}

-- ':'
abbrev colon : ℕ
colon = 58

-- What the callback is called with.
pub record Update : Type 0 where
  pub project_id : ProjectId
  pub sandbox_id : SandboxId
  pub is_removal : Bool

-- strings.SplitN(s, ":", 3), where it gives three parts.
unfoldable pub split_three : Text → Option (Text × Text × Text)
split_three s = elim (cut colon s) [
  | none ↦ none
  | some (first, rest) ↦ elim (cut colon rest) [
    | none ↦ none
    | some (second, third) ↦ some (first, second, third)
  ]
]

-- One message; none where the loop goes on to the next message without a call.
unfoldable pub parse_update : Text → Option Update
parse_update payload = elim (split_three payload) [
  | none ↦ none
  | some (first, second, third) ↦ elim (new_project_id first) [
    | err e ↦ none
    | ok project_id ↦
        if text_eq second (codes "remove")
        then some (record { project_id = project_id; sandbox_id = []; is_removal = true })
        else elim (new_sandbox_id third) [
          | err e ↦ none
          | ok sandbox_id ↦
              some (record { project_id = project_id; sandbox_id = sandbox_id; is_removal = false })
        ]
  ]
]

-- The loop of the goroutine: the calls that a sequence of messages leads to.
unfoldable pub receive_loop : List Text → List Update
receive_loop [] = []
receive_loop (payload ∷ payloads) = elim (parse_update payload) [
  | none ↦ receive_loop payloads
  | some call ↦ call ∷ receive_loop payloads
]

split_three-append :
    (p q r : Text)
    → Avoids colon p
    → Avoids colon q
    → split_three (p ++ colon ∷ (q ++ colon ∷ r)) ≡ some (p, q, r)
unfolding split_three
split_three-append p q r hp hq =
    ground (arith, cut-append colon p (q ++ colon ∷ r) hp, cut-append colon q r hq)

update-Avoids : Avoids colon (codes "update")
update-Avoids = (refl, (refl, (refl, (refl, (refl, (refl, tt))))))

remove-Avoids : Avoids colon (codes "remove")
remove-Avoids = (refl, (refl, (refl, (refl, (refl, (refl, tt))))))

pub parse_update-update_message :
    (p : ProjectId) (x : SandboxId)
    → IsProjectId p
    → IsSandboxId x
    → Avoids colon p
    → parse_update (update_message p x)
      ≡ some (record { project_id = p; sandbox_id = x; is_removal = false })
unfolding parse_update text_eq
parse_update-update_message p x pi xi plain = ground (
  arith,
  split_three-append p (codes "update") x plain update-Avoids,
  new_project_id-IsProjectId p pi,
  new_sandbox_id-IsSandboxId x xi,
)

pub parse_update-remove_message :
    (p : ProjectId)
    → IsProjectId p
    → Avoids colon p
    → parse_update (remove_message p)
      ≡ some (record { project_id = p; sandbox_id = []; is_removal = true })
unfolding parse_update text_eq
parse_update-remove_message p pi plain = ground (
  arith,
  split_three-append p (codes "remove") [] plain remove-Avoids,
  new_project_id-IsProjectId p pi,
)

-- For a project ID p that is read back as it is written and holds no colon, the message that gives
-- the project p:remove a sandbox is read as the removal of project p.
pub misread_update :
    (p : ProjectId) (x : SandboxId)
    → IsProjectId p
    → Avoids colon p
    → parse_update (update_message (p ++ codes ":remove") x)
      ≡ some (record { project_id = p; sandbox_id = []; is_removal = true })
unfolding parse_update text_eq
misread_update p x pi plain = ground (
  arith,
  append_assoc p (codes ":remove") (codes ":update:" ++ x),
  split_three-append p (codes "remove") (codes "update:" ++ x) plain remove-Avoids,
  new_project_id-IsProjectId p pi,
)

module _ {R : Type 0} (r : RedisStore R) (served : IsServed r.client) where
  open served use {db}

  -- SetProjectSandbox, on a server that answers, with IDs that are read back as they are written
  -- and no colon in the project ID, publishes one message, which a subscriber reads as that update.
  pub set_publishes :
      (p : ProjectId) (x : SandboxId) (s : R)
      → IsProjectId p
      → IsSandboxId x
      → Avoids colon p
      → (message : Text) × ((db (set_project_sandbox r p x s).1).sent
          ≡ (project_update_channel, message) ∷ (db s).sent)
        × (receive_loop (message ∷ [])
            ≡ record { project_id = p; sandbox_id = x; is_removal = false } ∷ [])
  unfolding set_commands apply_all apply put receive_loop
  set_publishes p x s pi xi plain = (
    update_message p x,
    ap (λ d. d.sent) (set_project_sandbox-db r served p x s),
    ground (arith, parse_update-update_message p x pi xi plain),
  )

  remove_commands-sent :
      (p : ProjectId) (x : SandboxId) (d : Db)
      → is_valid p ≡ true
      → (apply_all (remove_commands r p x) d).sent
        ≡ (project_update_channel, remove_message p) ∷ d.sent
  unfolding remove_commands apply_all apply put
  remove_commands-sent [] x d h = cc
  remove_commands-sent (c ∷ p) x d h = refl

  -- RemoveSandboxMapping, on a server that answers, of a sandbox whose project has an ID that is
  -- read back as it is written and holds no colon, publishes one message, which a subscriber reads
  -- as the removal of that project.
  pub remove_publishes :
      (p : ProjectId) (x : SandboxId) (s : R)
      → IsProjectId p
      → Avoids colon p
      → (find_project_for_sandbox r x s).0 ≡ ok p
      → (message : Text) × ((db (remove_sandbox_mapping r x s).1).sent
          ≡ (project_update_channel, message) ∷ (db s).sent)
        × (receive_loop (message ∷ [])
            ≡ record { project_id = p; sandbox_id = []; is_removal = true } ∷ [])
  unfolding remove_commands apply_all apply put receive_loop
  remove_publishes p x s pi plain owner = (
    remove_message p,
    ap (λ d. d.sent) (remove-db r served p x s owner) ∙ remove_commands-sent p x (db s) pi.valid,
    ground (arith, parse_update-remove_message p pi plain),
  )
