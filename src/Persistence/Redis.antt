-- ===== src/Persistence/Redis.antt =====
-- The Redis client (github.com/redis/go-redis) as the stores call it: a parameter of every
-- definition that uses it. `R` is the server's state with whatever else a call passes through; a
-- call may change it and may fail. `IsServed` collects the documented behaviour of a server that
-- answers, on keys whose time to live has not run out.
use k8s_sched_demo.Base.{
  ℕ, ◌≡◌, Bool, true, false, not, ◌||◌, Option, none, some, List, [], ◌∷◌, Text, text_eq,
  if◌then◌else◌, length, ◌++◌,
}
use k8s_sched_demo.Errors.{Error, Result, ok, err, redis_nil, is_some}

-- The commands that the code queues on a pipeline; times to live are in seconds.
pub data Queued : Type 0 where
  set : Text → Text → ℕ → Queued
  get : Text → Queued
  del : Text → Queued
  s_add : Text → Text → Queued
  s_rem : Text → Text → Queued
  expire : Text → ℕ → Queued
  publish : Text → Text → Queued

-- What `Exec` returns: the reply of each command, and an error if one failed.
pub record Replies : Type 0 where
  pub each : List (Result Text)
  pub error : Option Error

pub record Redis (R : Type 0) : Type 0 where
  pub get : Text → R → Result Text × R
  pub set_nx : Text → Text → ℕ → R → Result Bool × R
  pub del : Text → R → Result ℕ × R
  pub exists : Text → R → Result ℕ × R
  pub s_members : Text → R → Result (List Text) × R
  pub exec : List Queued → R → Replies × R  -- Pipeline().Exec
  pub exec_tx : List Queued → R → Replies × R  -- TxPipeline().Exec
  pub z_add : Text → ℕ → Text → R → Result ℕ × R
  pub z_pop_min : Text → R → Result (List Text) × R  -- ZPopMin(key, 1), members only
  pub z_card : Text → R → Result ℕ × R
  pub z_range : Text → R → Result (List Text) × R  -- ZRangeWithScores(key, 0, -1), members only
  pub z_rem : Text → Text → R → Result ℕ × R

-- What a client can read of the server: the live string keys, the sets, the sorted sets from the
-- lowest score to the highest, and the messages published so far, newest first.
pub record Db : Type 0 where
  pub value : Text → Option Text
  pub member : Text → Text → Bool
  pub sorted : Text → List Text
  pub sent : List (Text × Text)

abbrev pub update {ℓ} : {A : Type ℓ} → (Text → A) → Text → A → Text → A
update f k v j = if text_eq k j then v else f j

unfoldable pub put : Text → Option Text → Db → Db
put k v d = record d { value = update d.value k v }

-- The effect of one queued command on what can be read.
unfoldable pub apply : Queued → Db → Db
unfolding put
apply (set k v ttl) d = put k (some v) d
apply (get k) d = d
apply (del k) d = put k none d
apply (s_add k t) d = record d { member = update d.member k (update (d.member k) t true) }
apply (s_rem k t) d = record d { member = update d.member k (update (d.member k) t false) }
apply (expire k ttl) d = d
apply (publish channel message) d = record d { sent = (channel, message) ∷ d.sent }

unfoldable pub apply_all : List Queued → Db → Db
unfolding apply
apply_all [] d = d
apply_all (q ∷ qs) d = apply_all qs (apply q d)

-- The commands that answer with no error whatever the server holds.
abbrev pub is_write : Queued → Bool
is_write (get k) = false
is_write _ = true

abbrev pub all_writes : List Queued → Bool
all_writes [] = true
all_writes (q ∷ qs) = if is_write q then all_writes qs else false

abbrev pub reply_of : Option Text → Result Text
reply_of none = err redis_nil
reply_of (some v) = ok v

abbrev pub contains : Text → List Text → Bool
contains t [] = false
contains t (u ∷ us) = text_eq u t || contains t us

abbrev pub remove : Text → List Text → List Text
remove t [] = []
remove t (u ∷ us) = if text_eq u t then us else u ∷ remove t us

abbrev pub first : List Text → List Text
first [] = []
first (t ∷ ts) = t ∷ []

abbrev pub rest : List Text → List Text
rest [] = []
rest (t ∷ ts) = ts

pub record IsServed {R : Type 0} (redis : Redis R) : Type 0 where
  pub db : R → Db
  pub get_reply : (k : Text) (s : R) → (redis.get k s).0 ≡ reply_of ((db s).value k)
  pub get_db : (k : Text) (s : R) → db (redis.get k s).1 ≡ db s
  pub set_nx_reply :
      (k v : Text) (ttl : ℕ) (s : R)
      → (redis.set_nx k v ttl s).0 ≡ ok (not (is_some ((db s).value k)))
  pub set_nx_db :
      (k v : Text) (ttl : ℕ) (s : R)
      → db (redis.set_nx k v ttl s).1
        ≡ (if is_some ((db s).value k) then db s else put k (some v) (db s))
  pub del_reply :
      (k : Text) (s : R) → (redis.del k s).0 ≡ ok (if is_some ((db s).value k) then 1 else 0)
  pub del_db : (k : Text) (s : R) → db (redis.del k s).1 ≡ put k none (db s)
  pub exists_reply :
      (k : Text) (s : R) → (redis.exists k s).0 ≡ ok (if is_some ((db s).value k) then 1 else 0)
  pub exists_db : (k : Text) (s : R) → db (redis.exists k s).1 ≡ db s
  pub exec_error :
      (qs : List Queued) (s : R) → all_writes qs ≡ true → (redis.exec qs s).0.error ≡ none
  pub exec_db : (qs : List Queued) (s : R) → db (redis.exec qs s).1 ≡ apply_all qs (db s)
  pub exec_tx_error :
      (qs : List Queued) (s : R) → all_writes qs ≡ true → (redis.exec_tx qs s).0.error ≡ none
  pub exec_tx_db : (qs : List Queued) (s : R) → db (redis.exec_tx qs s).1 ≡ apply_all qs (db s)

-- The sorted sets, for the pool store. `ZADD` puts the member where its score belongs.
pub record IsSorted {R : Type 0} (redis : Redis R) (sorted : R → Text → List Text) : Type 0 where
  pub card_reply : (k : Text) (s : R) → (redis.z_card k s).0 ≡ ok (length (sorted s k))
  pub card_sorted : (k : Text) (s : R) → sorted (redis.z_card k s).1 ≡ sorted s
  pub range_reply : (k : Text) (s : R) → (redis.z_range k s).0 ≡ ok (sorted s k)
  pub range_sorted : (k : Text) (s : R) → sorted (redis.z_range k s).1 ≡ sorted s
  pub pop_reply : (k : Text) (s : R) → (redis.z_pop_min k s).0 ≡ ok (first (sorted s k))
  pub pop_sorted :
      (k : Text) (s : R) → sorted (redis.z_pop_min k s).1 ≡ update (sorted s) k (rest (sorted s k))
  pub rem_reply :
      (k t : Text) (s : R) → (redis.z_rem k t s).0 ≡ ok (if contains t (sorted s k) then 1 else 0)
  pub rem_sorted :
      (k t : Text) (s : R)
      → sorted (redis.z_rem k t s).1 ≡ update (sorted s) k (remove t (sorted s k))
  pub add_reply :
      (k t : Text) (score : ℕ) (s : R)
      → (redis.z_add k score t s).0 ≡ ok (if contains t (sorted s k) then 0 else 1)
  pub add_sorted :
      (k t : Text) (score : ℕ) (s : R)
      → (before : List Text) × (after : List Text) × (remove t (sorted s k) ≡ before ++ after)
        × (sorted (redis.z_add k score t s).1 ≡ update (sorted s) k (before ++ t ∷ after))
