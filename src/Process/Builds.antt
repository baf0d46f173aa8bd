-- ===== src/Process/Builds.antt =====
-- What every order of the calls of a build has in common (scheduler/cmd/server/main.go).
use k8s_sched_demo.Base.{
  ==_iff, refl, inr, ap, ◌∙◌, inl, arith, ◌||◌, zero, sym, false, Bool-cases, ◌++◌, true, suc, [],
  ◌≡◌, ◌∷◌, All, List, ℕ,
}
use k8s_sched_demo.Process.App.{
  provides_config, provides_pool_store, provides_redis_client, provides_k8s_client, invocations,
  number, IsBuild, invokes_xds, invokes_manager, invokes_server, invokes_pool, invokes_scheduler,
  invokes_hooks, provides_xds, provides_project, provides_pool, provides_scheduler,
  provides_idempotence_store, provides_store, needs, invoked, is_invoked, has, AreReady, AreOnce,
  same_call, provides_logger, Call,
}

nth : List Call → ℕ → Call
nth [] n = provides_logger
nth (c ∷ cs) zero = c
nth (c ∷ cs) (suc n) = nth cs n

-- The calls, each at its number.
of_number : ℕ → Call
unfolding nth
of_number = nth (
    provides_logger ∷ provides_config ∷ provides_k8s_client ∷ provides_redis_client ∷ provides_store
    ∷ provides_idempotence_store ∷ provides_pool_store ∷ provides_scheduler ∷ provides_pool
    ∷ provides_project ∷ provides_xds ∷ invokes_hooks ∷ invokes_scheduler ∷ invokes_pool
    ∷ invokes_server ∷ invokes_manager ∷ invokes_xds ∷ [])

of_number-number : (c : Call) → of_number (number c) ≡ c
unfolding of_number
of_number-number provides_logger = refl
of_number-number _ = refl

pub same_call-eq : (a b : Call) → same_call a b ≡ true → a ≡ b
unfolding same_call
same_call-eq a b same =
    sym (of_number-number a)
    ∙ (ap of_number ((==_iff (number a) (number b)).0 same) ∙ of_number-number b)

same_call_sym : (a b : Call) → same_call a b ≡ same_call b a
unfolding same_call
same_call_sym a b = ground (arith, ==_iff (number a) (number b), ==_iff (number b) (number a))

pub has-append : (c : Call) (xs ys : List Call) → has c (xs ++ ys) ≡ (has c xs || has c ys)
has-append c [] ys = refl
has-append c (x ∷ xs) ys = ground (arith, has-append c xs ys)

All-has :
    (d : Call) (made cs : List Call)
    → All (λ e. has e made ≡ true) cs
    → has d cs ≡ true
    → has d made ≡ true
All-has d made [] all h = cc
All-has d made (c ∷ cs) (here, all) h = elim (Bool-cases (same_call c d)) [
  | inl same ↦ rw (← same_call-eq c d same) here
  | inr other ↦ All-has d made cs all (ground (arith, other, h))
]

-- What a call needs was made before it, in the list or earlier.
pub AreReady-needs :
    (c d : Call) (made cs : List Call)
    → AreReady made cs
    → has c cs ≡ true
    → has d (needs c) ≡ true
    → (has d made || has d cs) ≡ true
AreReady-needs c d made [] ready h n = cc
AreReady-needs c d made (x ∷ cs) (here, ready) h n = elim (Bool-cases (same_call x c)) [
  | inl same ↦
      let found = All-has d made (needs c) (rw (← same_call-eq x c same) here) n in
      ground (arith, found)
  | inr other ↦
      let later = AreReady-needs c d (x ∷ made) cs ready (ground (arith, other, h)) n in
      ground (arith, later)
]

pub AreReady-prefix : (made xs ys : List Call) → AreReady made (xs ++ ys) → AreReady made xs
AreReady-prefix made [] ys ready = tt
AreReady-prefix made (x ∷ xs) ys (here, ready) = (here, AreReady-prefix (x ∷ made) xs ys ready)

pub AreOnce-before : (c : Call) (xs ys : List Call) → AreOnce (xs ++ c ∷ ys) → has c xs ≡ false
AreOnce-before c [] ys once = refl
AreOnce-before c (x ∷ xs) ys (here, once) =
    ground (arith, has-append x xs (c ∷ ys), here, same_call_sym x c, AreOnce-before c xs ys once)

pub AreOnce-suffix : (xs ys : List Call) → AreOnce (xs ++ ys) → AreOnce ys
AreOnce-suffix [] ys once = once
AreOnce-suffix (x ∷ xs) ys (here, once) = AreOnce-suffix xs ys once

invoked-has : (c : Call) (cs : List Call) → is_invoked c ≡ true → has c (invoked cs) ≡ has c cs
invoked-has c [] i = refl
invoked-has c (x ∷ cs) i = elim (Bool-cases (is_invoked x)) [
  | inl yes_invoked ↦ rw yes_invoked (ap (λ b. same_call x c || b) (invoked-has c cs i))
  | inr not_invoked ↦ elim (Bool-cases (same_call x c)) [
    | inl same ↦ let e = same_call-eq x c same in cc
    | inr other ↦ rw (not_invoked, other) (invoked-has c cs i)
  ]
]

-- Every invocation is among the calls of a build.
pub IsBuild-invoked :
    (cs : List Call) (c : Call)
    → IsBuild cs
    → has c invocations ≡ true
    → is_invoked c ≡ true
    → has c cs ≡ true
IsBuild-invoked cs c build h i = sym (invoked-has c cs i) ∙ (ap (has c) build.in_order ∙ h)
