-- ===== src/Persistence/Store/Refinement.antt =====
-- The mapping in Redis (scheduler/internal/persistence/redis.go) against an abstract registry:
-- which sandbox a project has, which project a sandbox has, and which sandboxes were released.
use k8s_sched_demo.Persistence.Store.Keys.{keys}
use k8s_sched_demo.Persistence.Store.Removal.{remove_sandbox_mapping_lem}
use k8s_sched_demo.Persistence.Store.Mapping.{get-set_project_sandbox}
use k8s_sched_demo.Persistence.Store.Effects.{
  set_error, set_project_sandbox-db, released-reply, find_project-reply, get_project_sandbox-reply,
}
use k8s_sched_demo.Errors.{not_found, ok, err, Result, Error}
use k8s_sched_demo.Types.Ids.{SandboxId, IsSandboxId, ProjectId, IsProjectId}
use k8s_sched_demo.Persistence.Store.{
  is_sandbox_released, form_released_key, remove_sandbox_mapping, form_sandbox_project_key,
  find_project_for_sandbox, set_project_sandbox, set_commands, form_project_sandbox_key,
  get_project_sandbox, RedisStore,
}
use k8s_sched_demo.Persistence.Redis.{apply_all, IsServed, Db, update}
use k8s_sched_demo.Base.{
  refl, All, is_empty, ◌≡◌, true, arith, [], Bool, ◌∷◌, some, false, none, Option, List,
}

pub record Registry : Type 0 where
  pub sandbox_of : ProjectId → Option SandboxId
  pub project_of : SandboxId → Option ProjectId
  pub released : SandboxId → Bool

abbrev pub empty_registry : Registry
empty_registry = record { sandbox_of = λ p. none; project_of = λ x. none; released = λ x. false }

-- The operations that change the mapping.
pub data Change : Type 0 where
  assign : ProjectId → SandboxId → Change
  release : SandboxId → Change

abbrev pub forget : Option ProjectId → (ProjectId → Option SandboxId) → ProjectId → Option SandboxId
forget none f = f
forget (some p) f = update f p none

unfoldable pub change : Change → Registry → Registry
change (assign p x) g = record g {
  sandbox_of = update g.sandbox_of p (some x);
  project_of = update g.project_of x (some p);
}
change (release x) g = record {
  sandbox_of = forget (g.project_of x) g.sandbox_of;
  project_of = update g.project_of x none;
  released = update g.released x true;
}

unfoldable pub change_all : List Change → Registry → Registry
change_all [] g = g
change_all (c ∷ cs) g = change_all cs (change c g)

-- The answers of the store.
abbrev pub sandbox_answer : Option SandboxId → Result SandboxId
sandbox_answer none = err not_found
sandbox_answer (some x) = ok x

abbrev pub project_answer : Option ProjectId → Result ProjectId
project_answer none = ok []
project_answer (some p) = ok p

-- Identifiers that are read back as they are written.
abbrev pub IsAllowed : Change → Type 0
IsAllowed (assign p x) = IsProjectId p × IsSandboxId x
IsAllowed (release x) = Unit {0}

module _ {R : Type 0} (r : RedisStore R) where
  unfoldable pub perform : Change → R → Option Error × R
  perform (assign p x) s = set_project_sandbox r p x s
  perform (release x) s = remove_sandbox_mapping r x s

  -- The operations one after the other; the first error ends the run.
  unfoldable pub perform_all : List Change → R → Option Error × R
  perform_all [] s = (none, s)
  perform_all (c ∷ cs) s =
      let (error, s') = perform c s in
      let rest = perform_all cs s' in elim error [ none ↦ rest | some e ↦ (some e, s') ]

  -- What the store answers is what the registry holds.
  pub record Agrees (g : Registry) (s : R) : Type 0 where
    pub sandboxes :
        (p : ProjectId) → (get_project_sandbox r p s).0 ≡ sandbox_answer (g.sandbox_of p)
    pub projects :
        (x : SandboxId) → (find_project_for_sandbox r x s).0 ≡ project_answer (g.project_of x)
    pub marks : (x : SandboxId) → (is_sandbox_released r x s).0 ≡ ok (g.released x)
    pub named : (x : SandboxId) (p : ProjectId) → g.project_of x ≡ some p → is_empty p ≡ false

  -- No key of the mapping is set.
  pub record IsFresh (d : Db) : Type 0 where
    pub no_sandbox : (p : ProjectId) → d.value (form_project_sandbox_key r p) ≡ none
    pub no_project : (x : SandboxId) → d.value (form_sandbox_project_key r x) ≡ none
    pub no_mark : (x : SandboxId) → d.value (form_released_key r x) ≡ none

module _ {R : Type 0} (r : RedisStore R) (served : IsServed r.client) where
  open served use {db}

  Agrees-fresh : (s : R) → IsFresh r (db s) → Agrees r empty_registry s
  Agrees-fresh s fresh = record {
    sandboxes = λ p. ground (arith, get_project_sandbox-reply r served p s, fresh.no_sandbox p);
    projects = λ x. ground (arith, find_project-reply r served x s, fresh.no_project x);
    marks = λ x. ground (arith, released-reply r served x s, fresh.no_mark x);
    named = λ x p e. ground arith;
  }

  pub released-kept :
      (p : ProjectId) (x y : SandboxId) (s : R)
      → (is_sandbox_released r y (set_project_sandbox r p x s).1).0 ≡ (is_sandbox_released r y s).0
  unfolding set_commands apply_all
  released-kept p x y s =
      rw
        (
          released-reply r served y (set_project_sandbox r p x s).1,
          released-reply r served y s,
          set_project_sandbox-db r served p x s,
        )
        (simp keys)

  Agrees-assign :
      (p : ProjectId) (x : SandboxId) (g : Registry) (s : R)
      → IsProjectId p
      → IsSandboxId x
      → Agrees r g s
      → Agrees r (change (assign p x) g) (set_project_sandbox r p x s).1
  unfolding change
  Agrees-assign p x g s pi xi a = record {
    sandboxes =
        λ q. ground (arith, get-set_project_sandbox r served p q x x s pi xi, a.sandboxes q);
    projects = λ y. ground (arith, get-set_project_sandbox r served p p x y s pi xi, a.projects y);
    marks = λ y. ground (arith, released-kept p x y s, a.marks y);
    named = λ y q e. ground (arith, a.named y q, pi.valid);
  }

  -- Releasing a sandbox whose project, if any, is `o`.
  module _ (x : SandboxId) (g : Registry) (s : R) (a : Agrees r g s) (o : Option ProjectId)
      (e : g.project_of x ≡ o) where
    abbrev project : ProjectId
    project = elim o [ none ↦ [] | some p ↦ p ]

    project_found : (find_project_for_sandbox r x s).0 ≡ ok project
    project_found = ground (arith, e, a.projects x)

    Agrees-release_of :
        ((remove_sandbox_mapping r x s).0 ≡ none)
        × Agrees r (change (release x) g) (remove_sandbox_mapping r x s).1
    unfolding change
    Agrees-release_of = (
      (remove_sandbox_mapping_lem r served project [] x x s project_found).0,
      record {
        sandboxes = λ q. ground (
          arith,
          e,
          remove_sandbox_mapping_lem r served project q x x s project_found,
          a.sandboxes q,
          a.named x project,
        );
        projects = λ y. ground (
          arith,
          remove_sandbox_mapping_lem r served project [] x y s project_found,
          a.projects y,
        );
        marks = λ y.
            ground (
              arith,
              remove_sandbox_mapping_lem r served project [] x y s project_found,
              a.marks y,
            );
        named = λ y q h. ground (arith, a.named y q);
      },
    )

  Agrees-perform :
      (c : Change) (g : Registry) (s : R)
      → IsAllowed c
      → Agrees r g s
      → ((perform r c s).0 ≡ none) × Agrees r (change c g) (perform r c s).1
  unfolding perform
  Agrees-perform (assign p x) g s (pi, xi) a =
      (set_error r served p x s, Agrees-assign p x g s pi xi a)
  Agrees-perform (release x) g s h a = Agrees-release_of x g s a (g.project_of x) refl

  Agrees-perform_all :
      (cs : List Change) (g : Registry) (s : R)
      → All IsAllowed cs
      → Agrees r g s
      → ((perform_all r cs s).0 ≡ none) × Agrees r (change_all cs g) (perform_all r cs s).1
  unfolding perform_all change_all
  Agrees-perform_all [] g s h a = (refl, a)
  Agrees-perform_all (c ∷ cs) g s (h, hs) a =
      let (fine, a') = Agrees-perform c g s h a in
      rw (fine, perform_all) (Agrees-perform_all cs (change c g) (perform r c s).1 hs a')

  -- Any sequence of calls of SetProjectSandbox, with IDs that are read back as they are written,
  -- and of RemoveSandboxMapping, on a server that answers and holds no key of the mapping, ends
  -- without an error, and every answer of GetProjectSandbox, FindProjectForSandbox and
  -- IsSandboxReleased afterwards is that of an abstract registry which the same sequence has
  -- changed.
  pub perform_all-change_all :
      (cs : List Change) (q : ProjectId) (y : SandboxId) (s : R)
      → IsFresh r (db s)
      → All IsAllowed cs
      → let g = change_all cs empty_registry in
        let (error, s') = perform_all r cs s in
        (error ≡ none)
        × ((get_project_sandbox r q s').0 ≡ sandbox_answer (g.sandbox_of q))
        × ((find_project_for_sandbox r y s').0 ≡ project_answer (g.project_of y))
        × ((is_sandbox_released r y s').0 ≡ ok (g.released y))
  perform_all-change_all cs q y s fresh hs =
      let (fine, a) = Agrees-perform_all cs empty_registry s hs (Agrees-fresh s fresh) in
      (fine, a.sandboxes q, a.projects y, a.marks y)
