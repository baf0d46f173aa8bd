-- ===== src/Kube/Delivered.antt =====
-- Which events reach the channel of the watcher (scheduler/internal/k8sclient/client.go,
-- `watchNamespacePods`, `processPodEvent`), while nothing is read from it.
use k8s_sched_demo.Types.Ids.{new_sandbox_id}
use k8s_sched_demo.Errors.{Result-cases, ok, err}
use k8s_sched_demo.Kube.Api.{Pod}
use native.Mathlib.Decide.{dec_lt}
use mathlib.Core.List.{append-nil, append_assoc}
use k8s_sched_demo.Base.{
  none, Option, inl, inr, sym, length-append, Bool-cases, ◌∙◌, ◌&&◌, true, refl, codes, zero,
  take-eq_of_le, ap, [], ◌∷◌, text_eq, suc, some, arith, ◌≤◌, ◌++◌, if◌then◌else◌, false, ◌≡◌, take,
  length, Bool, List, ℕ,
}
use k8s_sched_demo.Kube.Events.{
  should_send_event, other, event_type_of, of_pod, label, capacity, WatchEvent, PodEvent,
  watch_loop, send, EventChan, process_pod_event,
}

-- What the pod of the scheduler's that needs attention is announced by.
abbrev pub announced : Pod → List PodEvent
announced pod =
    if text_eq (label (codes "managed-by") pod.labels) (codes "scheduler") && should_send_event pod
    then elim (new_sandbox_id pod.name) [
      | err e ↦ []
      | ok x ↦ record { sandbox_id = x; event_type = event_type_of pod.deletion_timestamp } ∷ []
    ]
    else []

-- The announcements of the pods that come before the watcher's context is done.
abbrev pub announcements : List (Bool × WatchEvent) → List PodEvent
announcements [] = []
announcements ((true, event) ∷ events) = []
announcements ((false, other) ∷ events) = announcements events
announcements ((false, of_pod pod) ∷ events) = announced pod ++ announcements events

take-append-take :
    {A : Type 0} (n : ℕ) (xs ys : List A) → take n (take n xs ++ ys) ≡ take n (xs ++ ys)
take-append-take zero xs ys = refl
take-append-take (suc n) [] ys = refl
take-append-take (suc n) (x ∷ xs) ys = ap (◌∷◌ x) (take-append-take n xs ys)

length-take-le : {A : Type 0} (n : ℕ) (xs : List A) → length (take n xs) ≤ n
length-take-le zero xs = omega arith
length-take-le (suc n) [] = omega arith
length-take-le (suc n) (x ∷ xs) = omega (arith, length-take-le n xs)

-- A full list takes nothing more.
take-append_full : {A : Type 0} (n : ℕ) (xs ys : List A) → length xs ≡ n → take n (xs ++ ys) ≡ xs
take-append_full zero [] ys h = refl
take-append_full zero (x ∷ xs) ys h = absurd (omega arith)
take-append_full (suc n) [] ys h = absurd (omega arith)
take-append_full (suc n) (x ∷ xs) ys h = ap (◌∷◌ x) (take-append_full n xs ys (omega arith))

-- The channel with as many of some more events as there is room for.
abbrev pub filled : EventChan → List PodEvent → EventChan
filled chan events = record chan { buffer = take capacity (chan.buffer ++ events) }

send-filled :
    (e : PodEvent) (chan : EventChan)
    → chan.closed ≡ false
    → length chan.buffer ≤ capacity
    → send e chan ≡ some (filled chan (e ∷ []))
unfolding send
send-filled e chan open_ h = elim (dec_lt (length chan.buffer) capacity) [
  | yes room ↦
      ground
        (arith, length-append chan.buffer (e ∷ []), take-eq_of_le capacity (chan.buffer ++ e ∷ []))
  | no full ↦ ground (arith, take-append_full capacity chan.buffer (e ∷ []))
]

filled-none : (chan : EventChan) → length chan.buffer ≤ capacity → some chan ≡ some (filled chan [])
filled-none chan h =
    ap (λ b. some (record chan { buffer = b }))
      (sym (ap (take capacity) (append-nil chan.buffer) ∙ take-eq_of_le capacity chan.buffer h))

process-filled :
    (pod : Pod) (chan : EventChan)
    → chan.closed ≡ false
    → length chan.buffer ≤ capacity
    → process_pod_event pod chan ≡ some (filled chan (announced pod))
unfolding process_pod_event
process-filled pod chan open_ h =
    let managed = text_eq (label (codes "managed-by") pod.labels) (codes "scheduler") in
    elim (Bool-cases managed) [
      | inr foreign ↦ rw foreign (filled-none chan h)
      | inl ours ↦ elim (Bool-cases (should_send_event pod)) [
        | inr fine ↦ elim (Result-cases (new_sandbox_id pod.name)) [
          | inl (x, e) ↦ rw (ours, fine, e, process_pod_event) (rw fine (filled-none chan h))
          | inr (bad, e) ↦ rw (ours, fine, e, process_pod_event) (filled-none chan h)
        ]
        | inl failing ↦ elim (Result-cases (new_sandbox_id pod.name)) [
          | inl (x, e) ↦
              rw (ours, failing, e, process_pod_event)
                (rw failing (
                  send-filled
                    (record { sandbox_id = x; event_type = event_type_of pod.deletion_timestamp })
                    chan open_ h))
          | inr (bad, e) ↦ rw (ours, failing, e, process_pod_event) (filled-none chan h)
        ]
      ]
    ]

continue_some :
    (left : Option EventChan) (next : EventChan → Option EventChan) (chan : EventChan)
    → left ≡ some chan
    → (elim left [ none ↦ none | some chan' ↦ next chan' ]) ≡ next chan
continue_some none next chan e = cc
continue_some (some chan') next chan e = ap next (cc)

-- While nothing is read from its open channel, which holds at most 100 events, the watcher ends
-- without a panic, and the channel then holds the first 100 of the events that it held and of the
-- announcements, in order: one for each pod before the end of the watcher's context that is managed
-- by the scheduler, has a valid sandbox ID and needs attention.
pub watch_loop-filled :
    (events : List (Bool × WatchEvent)) (chan : EventChan)
    → chan.closed ≡ false
    → length chan.buffer ≤ capacity
    → watch_loop events chan ≡ some (filled chan (announcements events))
unfolding watch_loop
watch_loop-filled [] chan open_ h = filled-none chan h
watch_loop-filled ((true, event) ∷ events) chan open_ h = filled-none chan h
watch_loop-filled ((false, other) ∷ events) chan open_ h = watch_loop-filled events chan open_ h
watch_loop-filled ((false, of_pod pod) ∷ events) chan open_ h =
    let chan' = filled chan (announced pod) in
    continue_some (process_pod_event pod chan) (watch_loop events) chan'
      (process-filled pod chan open_ h)
    ∙ (watch_loop-filled events chan' open_ (length-take-le capacity (chan.buffer ++ announced pod))
        ∙ ap (λ b. some (record chan { buffer = b }))
            (take-append-take capacity (chan.buffer ++ announced pod) (announcements events)
              ∙ ap (take capacity)
                  (append_assoc chan.buffer (announced pod) (announcements events))))
