-- ===== src/Process/App.antt =====
-- scheduler/cmd/server/main.go: the functions that the modules give to fx, what they need, and the
-- hooks that they append.

use k8s_sched_demo.Config.{Config}
use k8s_sched_demo.Errors.{Error}
use k8s_sched_demo.Persistence.Store.{RedisStore}
use k8s_sched_demo.Types.Ids.{ProjectId}
use k8s_sched_demo.Process.{
  provide_cleanup, provide_server, start_pool_service, start_service, register_hooks, xds_hook,
  redis_hook, Process, end_of, returned, Ran, Hook,
}
use k8s_sched_demo.Xds.{ControlPlane}
use k8s_sched_demo.Base.{
  ◌++◌, some, Option, true, none, ◌||◌, if◌then◌else◌, Text, All, ◌≡◌, ◌∷◌, ◌==◌, leb, false, [],
  List, Bool, ℕ,
}

-- The functions behind fx.Provide and fx.Invoke.
pub data Call : Type 0 where
  provides_logger provides_config provides_k8s_client provides_redis_client : Call
  provides_store provides_idempotence_store provides_pool_store : Call
  provides_scheduler provides_pool provides_project provides_xds : Call
  invokes_hooks invokes_scheduler invokes_pool : Call
  invokes_server invokes_manager invokes_xds : Call

-- The fields of the parameter structs, by the functions that provide them.
abbrev pub scheduler_params : List Call
scheduler_params =
    provides_config ∷ provides_k8s_client ∷ provides_idempotence_store ∷ provides_store
    ∷ provides_logger ∷ []

abbrev pub start_scheduler_params : List Call
start_scheduler_params = provides_scheduler ∷ provides_logger ∷ []

abbrev pub pool_params : List Call
pool_params = provides_config ∷ provides_pool_store ∷ provides_scheduler ∷ provides_logger ∷ []

abbrev pub start_pool_params : List Call
start_pool_params = provides_pool ∷ provides_logger ∷ []

abbrev pub project_params : List Call
project_params =
    provides_config ∷ provides_scheduler ∷ provides_pool ∷ provides_store ∷ provides_k8s_client
    ∷ provides_logger ∷ []

abbrev pub server_params : List Call
server_params = provides_config ∷ provides_scheduler ∷ provides_project ∷ provides_logger ∷ []

abbrev pub manager_params : List Call
manager_params = provides_config ∷ provides_scheduler ∷ provides_logger ∷ []

abbrev pub xds_params : List Call
xds_params = provides_config ∷ provides_store ∷ provides_k8s_client ∷ provides_logger ∷ []

-- What a function takes besides the lifecycle.
unfoldable pub needs : Call → List Call
needs provides_config = []
needs provides_logger = provides_config ∷ []
needs provides_k8s_client = provides_config ∷ provides_logger ∷ []
needs provides_redis_client = provides_config ∷ []
needs provides_store = provides_redis_client ∷ provides_config ∷ []
needs provides_idempotence_store = provides_redis_client ∷ provides_config ∷ []
needs provides_pool_store = provides_redis_client ∷ provides_config ∷ []
needs provides_scheduler = scheduler_params
needs provides_pool = pool_params
needs provides_project = project_params
needs provides_xds = xds_params
needs invokes_hooks = provides_k8s_client ∷ provides_logger ∷ []
needs invokes_scheduler = start_scheduler_params
needs invokes_pool = start_pool_params
needs invokes_server = server_params
needs invokes_manager = manager_params
needs invokes_xds = provides_xds ∷ []

-- The invocations of the modules, in the order of `fx.New`.
unfoldable pub invocations : List Call
invocations =
    invokes_hooks ∷ invokes_scheduler ∷ invokes_pool ∷ invokes_server ∷ invokes_manager
    ∷ invokes_xds ∷ []

-- The place of a call in the list above, by which calls are compared.
abbrev pub number : Call → ℕ
number provides_logger = 0
number provides_config = 1
number provides_k8s_client = 2
number provides_redis_client = 3
number provides_store = 4
number provides_idempotence_store = 5
number provides_pool_store = 6
number provides_scheduler = 7
number provides_pool = 8
number provides_project = 9
number provides_xds = 10
number invokes_hooks = 11
number invokes_scheduler = 12
number invokes_pool = 13
number invokes_server = 14
number invokes_manager = 15
number invokes_xds = 16

unfoldable pub same_call : Call → Call → Bool
same_call a b = number a == number b

abbrev pub has : Call → List Call → Bool
has c [] = false
has c (d ∷ ds) = same_call d c || has c ds

abbrev pub is_invoked : Call → Bool
is_invoked c = leb 11 (number c)

abbrev pub invoked : List Call → List Call
invoked [] = []
invoked (c ∷ cs) = if is_invoked c then c ∷ invoked cs else invoked cs

abbrev pub AreOnce : List Call → Type 0
AreOnce [] = Unit {0}
AreOnce (c ∷ cs) = (has c cs ≡ false) × AreOnce cs

-- Each call stands behind what it needs.
abbrev pub AreReady : List Call → List Call → Type 0
AreReady made [] = Unit {0}
AreReady made (c ∷ cs) = All (λ d. has d made ≡ true) (needs c) × AreReady (c ∷ made) cs

-- The calls that fx makes while it builds the process: the invocations in their order, and each
-- constructor at most once, before whatever needs what it provides.
pub record IsBuild (cs : List Call) : Type 0 where
  pub in_order : invoked cs ≡ invocations
  pub once : AreOnce cs
  pub ready : AreReady [] cs

-- fx's lifecycle: the hooks are started in the order in which they were appended, and stopped in the
-- reverse order, each whatever the one before it returned.
pub record Fx (S : Type 0) : Type 0 where
  pub start : List (Hook S) → S → Ran S
  pub stop : List (Hook S) → S → Ran S

pub record IsOrderly {S : Type 0} (fx : Fx S) : Type 0 where
  pub start_none : (s : S) → fx.start [] s ≡ returned none s
  pub start_first :
      (h : Hook S) (hs : List (Hook S)) (s s' : S)
      → h.on_start s ≡ returned none s'
      → fx.start (h ∷ hs) s ≡ fx.start hs s'
  pub stop_none : (s : S) → fx.stop [] s ≡ returned none s
  pub stop_first :
      (h : Hook S) (hs : List (Hook S)) (s s' : S)
      → end_of (fx.stop hs s) ≡ some s'
      → end_of (fx.stop (h ∷ hs) s) ≡ end_of (h.on_stop s')

module _ {R C A S : Type 0} (plane : ControlPlane A S C) (hostname : ProjectId → Text)
    (store : RedisStore R) (close_client : R → Option Error × R) (version : ℕ) (cfg : Config) where
  -- The hooks that a call appends.
  unfoldable pub hooks_of : Call → List (Hook (Process R C))
  hooks_of provides_redis_client = redis_hook close_client ∷ []
  hooks_of provides_xds = xds_hook plane hostname store version cfg ∷ []
  hooks_of invokes_hooks = register_hooks ∷ []
  hooks_of invokes_scheduler = start_service ∷ []
  hooks_of invokes_pool = start_pool_service cfg ∷ []
  hooks_of invokes_server = provide_server cfg ∷ []
  hooks_of invokes_manager = provide_cleanup cfg ∷ []
  hooks_of other = []

  -- The lifecycle after the calls of a build.
  unfoldable pub new_app : List Call → List (Hook (Process R C))
  unfolding hooks_of
  new_app [] = []
  new_app (c ∷ cs) = hooks_of c ++ new_app cs
