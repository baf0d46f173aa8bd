-- ===== src/Types/Base36/Collisions.antt =====
-- When two generated IDs are the same (scheduler/internal/types/ids.go, `GenerateSandboxID`).
use k8s_sched_demo.Types.Base36.Laws.{decode_base36, decode-generate_sandbox_id}
use k8s_sched_demo.Types.Base36.{encode_base36, generate_sandbox_id}
use k8s_sched_demo.Base.{ap, ◌∙◌, sym, ◌↔◌, ◌≡◌, ◌^◌, ◌<◌, ◌+◌, ℕ}

-- Two draws of GenerateSandboxID, of which the clock and the random byte sum up to less than 2^63,
-- give the same ID exactly if these sums are equal.
pub generate_sandbox_id-eq_iff :
    (nanos random nanos' random' : ℕ)
    → nanos + random < 2 ^ 63
    → nanos' + random' < 2 ^ 63
    → (generate_sandbox_id nanos random ≡ generate_sandbox_id nanos' random')
      ↔ (nanos + random ≡ nanos' + random')
generate_sandbox_id-eq_iff nanos random nanos' random' h h' =
    let (reads, whole, short) = decode-generate_sandbox_id nanos random h in
    let (reads', whole', short') = decode-generate_sandbox_id nanos' random' h' in
    (λ e. sym reads ∙ ap decode_base36 e ∙ reads', λ e. whole ∙ ap encode_base36 e ∙ sym whole')
