-- ===== src/Types/Ids/Laws.antt =====
-- Parsing and printing of identifiers (scheduler/internal/types/ids.go).
use k8s_sched_demo.Base.{
  ◌≡◌, refl, true, [], ◌∷◌, ◌++◌, ◌⊎◌, inl, inr, arith, Text, is_empty, trim_prefix, strip_prefix,
  strip_prefix-some, trim_prefix-append, if◌then◌else◌, Option-cases, trim_prefix-eq_of_none,
}
use k8s_sched_demo.Errors.{Result, ok, err, empty_id}
use k8s_sched_demo.Types.Ids.{
  SandboxId, ProjectId, sandbox_prefix, project_prefix, is_valid, new_sandbox_id, new_project_id,
  new_project_id_without_prefix, sandbox_with_prefix, IsSandboxId, IsProjectId,
}

-- Parsing a printed sandbox ID gives it back, whatever a valid ID holds.
pub new_sandbox_id-with_prefix :
    (s : SandboxId) → is_valid s ≡ true → new_sandbox_id (sandbox_with_prefix s) ≡ ok s
unfolding new_sandbox_id sandbox_with_prefix
new_sandbox_id-with_prefix s v = rw v (rw (trim_prefix-append sandbox_prefix s) (ground arith))

trim_prefix_cases : (p t : Text) → (t ≡ p ++ trim_prefix p t) ⊎ (t ≡ trim_prefix p t)
unfolding trim_prefix
trim_prefix_cases p t = elim (Option-cases (strip_prefix p t)) [
  | inl e ↦ inr (rw (e, trim_prefix))
  | inr (r, e) ↦ inl (rw (e, trim_prefix) (strip_prefix-some p t r e))
]

-- What a call of `NewSandboxID` on `t` has returned.
abbrev pub Parsed : Text → Result SandboxId → Type 0
Parsed t (err e) = (e ≡ empty_id) × ((t ≡ sandbox_prefix) ⊎ (t ≡ []))
Parsed t (ok s) = (is_valid s ≡ true) × ((t ≡ sandbox_prefix ++ s) ⊎ (t ≡ s))

Parsed-of_trimmed :
    (t s : Text)
    → (t ≡ sandbox_prefix ++ s) ⊎ (t ≡ s)
    → Parsed t (if is_empty s then err empty_id else ok s)
Parsed-of_trimmed t [] h = (refl, h)
Parsed-of_trimmed t (c ∷ s) h = (refl, h)

-- NewSandboxID fails with ErrEmptyID on the empty text and on the bare prefix, and on no other; on
-- any other text it returns the text, or the text less one leading prefix, and that is not empty.
pub new_sandbox_id-Parsed : (t : Text) → Parsed t (new_sandbox_id t)
unfolding new_sandbox_id
new_sandbox_id-Parsed t =
    Parsed-of_trimmed t (trim_prefix sandbox_prefix t) (trim_prefix_cases sandbox_prefix t)

-- A bare ID is read as it is written.
pub new_sandbox_id-IsSandboxId : (s : SandboxId) → IsSandboxId s → new_sandbox_id s ≡ ok s
unfolding new_sandbox_id
new_sandbox_id-IsSandboxId s i = rw (trim_prefix-eq_of_none sandbox_prefix s i.bare) (ground arith)

pub new_project_id-IsProjectId : (p : ProjectId) → IsProjectId p → new_project_id p ≡ ok p
unfolding new_project_id
new_project_id-IsProjectId p i = rw (trim_prefix-eq_of_none project_prefix p i.bare) (ground arith)

-- NewProjectIDWithoutPrefix takes every text but the empty one as the ID that it is.
pub new_project_id_without_prefix_lem :
    (t : Text) → new_project_id_without_prefix t ≡ (if is_empty t then err empty_id else ok t)
unfolding new_project_id_without_prefix new_project_id
new_project_id_without_prefix_lem t = rw (trim_prefix-append project_prefix t)
