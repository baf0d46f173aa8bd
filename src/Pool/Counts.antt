-- ===== src/Pool/Counts.antt =====
-- How often a text stands in a list, and how the commands on a sorted set change that.
use k8s_sched_demo.Errors.{ok}
use k8s_sched_demo.Types.Ids.{new_sandbox_id}
use k8s_sched_demo.Persistence.Redis.{first, rest, remove}
use k8s_sched_demo.Persistence.PoolStore.{read_popped, valid_ids}
use k8s_sched_demo.Base.{
  ◌≤◌, refl, text_eq_refl, text_eq_iff, ap, arith, [], ◌-◌, ◌+◌, text_eq, ◌≡◌, if◌then◌else◌, ◌∷◌,
  ◌<◌, ◌++◌, List, Text, ℕ,
}

abbrev pub count : Text → List Text → ℕ
count t [] = 0
count t (u ∷ us) = (if text_eq u t then 1 else 0) + count t us

pub count-append : (t : Text) (us vs : List Text) → count t (us ++ vs) ≡ count t us + count t vs
count-append t [] vs = omega arith
count-append t (u ∷ us) vs = omega (arith, count-append t us vs)

-- One occurrence goes, if there is one.
pub count-remove :
    (t x : Text) (us : List Text)
    → count t (remove x us) ≡ count t us - (if text_eq x t then 1 else 0)
count-remove t x [] = omega arith
count-remove t x (u ∷ us) =
    ground (arith, text_eq_iff u x, text_eq_iff x t, text_eq_iff u t, count-remove t x us)

-- The member that is added has one more than what is left of it after its old place is cleared.
pub count-insert :
    (t x : Text) (us before after : List Text)
    → remove x us ≡ before ++ after
    → count t (before ++ x ∷ after)
      ≡ (count t us - (if text_eq x t then 1 else 0)) + (if text_eq x t then 1 else 0)
count-insert t x us before after cut = omega (
  arith,
  count-append t before (x ∷ after),
  count-append t before after,
  ap (count t) cut,
  count-remove t x us,
)

-- Members that each read back as they are written are read as they stand.
pub valid_ids-same :
    (us : List Text) → ((t : Text) → 0 < count t us → new_sandbox_id t ≡ ok t) → valid_ids us ≡ us
unfolding valid_ids
valid_ids-same [] h = refl
valid_ids-same (u ∷ us) h =
    rw (h u (ground (arith, text_eq_refl u)), valid_ids)
      (ap (◌∷◌ u) (valid_ids-same us (λ t here. h t (omega (arith, here)))))

pub count-rest-le : (t : Text) (us : List Text) → count t (rest us) ≤ count t us
count-rest-le t [] = omega arith
count-rest-le t (u ∷ us) = omega arith

-- The member that is handed out is the first, as it is written.
pub read_popped-counts :
    (t x : Text) (us : List Text)
    → read_popped (ok (first us)) ≡ ok x
    → ((u : Text) → 0 < count u us → new_sandbox_id u ≡ ok u)
    → count t us ≡ (if text_eq x t then 1 else 0) + count t (rest us)
read_popped-counts t x [] got reads = cc
read_popped-counts t x (u ∷ us) got reads =
    ground (arith, got, reads u (ground (arith, text_eq_refl u)))
