-- ===== src/Errors.antt =====
-- Go's error values as the scheduler builds and tests them, and the pair (value, error) that its
-- functions return. A `remote` error is any error of a called library that the code does not name.
-- The interpolated parts of messages are left out.
use k8s_sched_demo.Base.{
  refl, inr, inl, ◌⊎◌, ◌≡◌, String, Bool, true, false, Option, none, some, Text,
}

pub data Error : Type 0 where
  redis_nil : Error  -- redis.Nil
  empty_id : Error  -- types.ErrEmptyID
  not_found : Error  -- persistence.ErrNotFound
  concurrent_creation_failed : Error
  pool_empty : Error
  deadline_exceeded : Error  -- context.DeadlineExceeded
  canceled : Error  -- context.Canceled
  api_not_found : Error  -- k8serrors.IsNotFound holds of it
  remote : Text → Error
  new : String → Error  -- errors.New
  wrap : String → Error → Error  -- fmt.Errorf with %w, which errors.Is looks through
  format : String → Error → Error  -- fmt.Errorf with %v, which keeps the text only

pub data Result {ℓ} (A : Type ℓ) : Type ℓ where
  ok : A → Result A
  err : Error → Result A

-- err == redis.Nil
abbrev pub is_redis_nil : Error → Bool
is_redis_nil redis_nil = true
is_redis_nil _ = false

-- err == ErrNotFound
abbrev pub is_not_found : Error → Bool
is_not_found not_found = true
is_not_found _ = false

-- errors.Is(err, context.DeadlineExceeded) || errors.Is(err, context.Canceled)
abbrev pub is_context_error : Error → Bool
is_context_error (wrap _ e) = is_context_error e
is_context_error deadline_exceeded = true
is_context_error canceled = true
is_context_error _ = false

-- errors.Is(err, persistence.ErrPoolEmpty)
abbrev pub is_pool_empty : Error → Bool
is_pool_empty (wrap _ e) = is_pool_empty e
is_pool_empty pool_empty = true
is_pool_empty _ = false

-- k8serrors.IsNotFound(err)
abbrev pub is_api_not_found : Error → Bool
is_api_not_found (wrap _ e) = is_api_not_found e
is_api_not_found api_not_found = true
is_api_not_found _ = false

abbrev pub is_some {ℓ} : {A : Type ℓ} → Option A → Bool
is_some none = false
is_some (some a) = true

abbrev pub wrap_result {ℓ} : {A : Type ℓ} → String → Result A → Result A
wrap_result s (ok a) = ok a
wrap_result s (err e) = err (wrap s e)

abbrev pub format_result {ℓ} : {A : Type ℓ} → String → Result A → Result A
format_result s (ok a) = ok a
format_result s (err e) = err (format s e)

abbrev pub wrap_error : String → Option Error → Option Error
wrap_error s none = none
wrap_error s (some e) = some (wrap s e)

abbrev pub format_error : String → Option Error → Option Error
format_error s none = none
format_error s (some e) = some (format s e)

-- The value that Go code reads where it ignores the error: the zero value beside an error.
abbrev pub value_or {ℓ} : {A : Type ℓ} → A → Result A → A
value_or zero_value (ok a) = a
value_or zero_value (err e) = zero_value

pub Result-cases {ℓ} :
    {A : Type ℓ} (r : Result A) → ((a : A) × (r ≡ ok a)) ⊎ ((e : Error) × (r ≡ err e))
Result-cases (ok a) = inl (a, refl)
Result-cases (err e) = inr (e, refl)
