-- ===== src/Persistence/Setup.antt =====
-- scheduler/internal/persistence/module.go and `newRedisClient` of redis.go: the client of the
-- three stores, and the pool store on it. net/url and the constructor of the client are given.
use k8s_sched_demo.Persistence.Store.{default_key_prefix}
use k8s_sched_demo.Persistence.PoolStore.{new_redis_sandbox_pool_store, PoolStore}
use k8s_sched_demo.Config.{Config}
use k8s_sched_demo.Errors.{wrap, ok, new, err, Result}
use k8s_sched_demo.Persistence.Redis.{Redis}
use k8s_sched_demo.Base.{none, is_empty, some, if◌then◌else◌, ℕ, [], Text, Option}

-- What the code reads of a parsed URL: the host with its port, and the password of the user.
pub record Url : Type 0 where
  pub host : Text
  pub user : Option (Option Text)

-- redis.Options
pub record Options : Type 0 where
  pub addr : Text
  pub password : Text
  pub db : ℕ

abbrev pub password_of : Option (Option Text) → Text
password_of none = []
password_of (some none) = []
password_of (some (some password)) = password

-- The options for `redis.NewClient`; the path of the URI is not looked at.
unfoldable pub new_redis_client : (Text → Result Url) → Text → Result Options
new_redis_client parse redis_uri =
    if is_empty redis_uri then err (new "redis URI is required") else (elim (parse redis_uri) [
      | err e ↦ err (wrap "invalid Redis URI" e)
      | ok uri ↦ ok (record { addr = uri.host; password = password_of uri.user; db = 0 })
    ])

unfoldable pub provide_redis_client :
    {R : Type 0} → (Text → Result Url) → (Options → Redis R) → Config → Result (Redis R)
provide_redis_client parse new_client cfg = elim (new_redis_client parse cfg.redis_uri) [
  | err e ↦ err e
  | ok options ↦ ok (new_client options)
]

unfoldable pub provide_sandbox_pool_store : {R : Type 0} → Redis R → Result (PoolStore R)
provide_sandbox_pool_store client = new_redis_sandbox_pool_store (some client) default_key_prefix
