-- ===== src/Types/Ids.antt =====
-- scheduler/internal/types/ids.go: `SandboxID` and `ProjectID`, both wrappers of a string.
pub mod Laws
use k8s_sched_demo.Base.{
  ◌≡◌, refl, Bool, true, false, not, none, some, [], ◌∷◌, ◌++◌, ◌≢◌, ◌↔◌, ◌⊎◌, inl, inr, arith,
  Text, codes, is_empty, trim_prefix, strip_prefix, strip_prefix-some, trim_prefix-append,
  if◌then◌else◌, Option-cases, trim_prefix-eq_of_none, Bool-cases, sym,
}
use k8s_sched_demo.Errors.{Error, Result, ok, err, empty_id}

abbrev pub SandboxId : Type 0
SandboxId = Text

abbrev pub ProjectId : Type 0
ProjectId = Text

abbrev pub sandbox_prefix : Text
sandbox_prefix = codes "sandbox-"

abbrev pub project_prefix : Text
project_prefix = codes "project-"

-- `IsValid` of either type.
abbrev pub is_valid : Text → Bool
is_valid s = not (is_empty s)

unfoldable pub new_sandbox_id : Text → Result SandboxId
new_sandbox_id id =
    let clean_id = trim_prefix sandbox_prefix id in
    if is_empty clean_id then err empty_id else ok clean_id

unfoldable pub new_project_id : Text → Result ProjectId
new_project_id id =
    let clean_id = trim_prefix project_prefix id in
    if is_empty clean_id then err empty_id else ok clean_id

unfoldable pub new_project_id_without_prefix : Text → Result ProjectId
unfolding new_project_id
new_project_id_without_prefix id = new_project_id (project_prefix ++ id)

-- SandboxID.WithPrefix
unfoldable pub sandbox_with_prefix : SandboxId → Text
sandbox_with_prefix s = if not (is_valid s) then [] else sandbox_prefix ++ s

-- ProjectID.WithPrefix
unfoldable pub project_with_prefix : ProjectId → Text
project_with_prefix p = if not (is_valid p) then [] else project_prefix ++ p

-- An identifier in the form that a store reads back as it was written: not empty, and not itself
-- beginning with the prefix that the constructor takes off.
pub record IsSandboxId (s : SandboxId) : Type 0 where
  pub valid : is_valid s ≡ true
  pub bare : strip_prefix sandbox_prefix s ≡ none

pub record IsProjectId (p : ProjectId) : Type 0 where
  pub valid : is_valid p ≡ true
  pub bare : strip_prefix project_prefix p ≡ none
