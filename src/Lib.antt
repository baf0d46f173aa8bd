-- ===== src/Lib.antt =====
-- k8s-sched-demo: a scheduler that starts one sandbox pod of Kubernetes for each project, keeps a
-- pool of sandboxes started ahead, and tells Envoy where the requests of each project go.
--
-- The parts and how they meet. The project service (scheduler/internal/project) answers
-- GetProjectSandbox: it looks the project up in the mapping store, asks the scheduler service
-- whether the sandbox it finds is gone, and otherwise takes one from the sandbox pool or has one
-- scheduled, writes the mapping and the Kubernetes service, and may wait. The scheduler service
-- (scheduler/internal/scheduler) creates a sandbox for an idempotence key under a claim in the
-- idempotence store, releases sandboxes, and cleans old ones up. The pool
-- (scheduler/internal/sandboxpool) schedules sandboxes ahead and moves them from pending to ready.
-- The stores (scheduler/internal/persistence) keep all of it in Redis. The Kubernetes client
-- (scheduler/internal/k8sclient) creates pods and services and sends an event for a pod that needs
-- attention, on which the scheduler service releases the sandbox. The control plane
-- (scheduler/internal/xds) follows the updates of the mapping store. A request for a project without
-- a route comes to the activator (activator), which asks GetProjectSandbox, over the transport
-- (scheduler/internal/transport/http), and passes it on. The pod of a sandbox runs the mock sandbox
-- (mock-sandbox), which answers the probes. A job (scheduler/internal/jobs/cleanup) runs the cleanup.
--
-- The files, by the code that they model:
--   Errors: Go's errors, and the pair of a value and an error.
--   Config: scheduler/internal/config/config.go.
--   Types/Ids, Types/Base36: scheduler/internal/types/ids.go. IDs are texts, lists of bytes.
--   Persistence/Redis: the Redis client, a record of calls on a state that the model does not know;
--     IsServed and IsSorted state what a server that answers replies, and what its clients then
--     read. Persistence/Context: a Go context, as the waiting loops see it.
--   Persistence/Store, with its children Updates (the subscription's messages) and AllMappings, and
--     Refinement, an abstract registry of projects and sandboxes beside it:
--     scheduler/internal/persistence/redis.go (GetProjectSandbox is
--     get_project_sandbox, and so on; the commands of each pipeline are a list).
--   Persistence/Claim, Persistence/Idempotence: idempotence.go and idempotence_impl.go of the same
--     folder. Persistence/Idempotence/Protocol: several callers of it, each of whose Redis commands
--     is a step. Persistence/PoolStore: redis_pool_store.go. Persistence/Setup: the client and the
--     pool store of module.go. Persistence/Separate: the mapping and the idempotence keys together.
--   Kube/Api: the Kubernetes API, a record of calls on the state of a cluster. Kube/Spec,
--     Kube/Client, Kube/Events, Kube/Stopping, Kube/Setup, Kube/Interface: client.go, mock.go,
--     interface.go and module.go of scheduler/internal/k8sclient, and pod_event.go of
--     scheduler/internal/types. Kube/Services states what an API server does with services.
--   Scheduler: scheduler/internal/scheduler/service.go. Scheduler/Deployed also holds the providers
--     of scheduler/internal/persistence/module.go.
--   Pool, Pool/Job: scheduler/internal/sandboxpool/service.go.
--   CleanupJob: scheduler/internal/jobs/cleanup.
--   Project: scheduler/internal/project/service.go.
--   Transport: scheduler/internal/transport/http/project_server.go; Transport/Forwarded joins it to
--     the activator.
--   Xds, Xds/Snapshot, Xds/Startup: scheduler/internal/xds/server.go; go-control-plane and protobuf
--     are a record.
--   Activator: activator/internal/service/activator.go and activator/internal/client/client.go; the
--     network is a record. Activator/Server: the mux of activator/internal/transport/http.go and the
--     settings of activator/internal/config/config.go.
--   MockSandbox: mock-sandbox/internal/server/server.go; the router is an argument.
--   Process: the hooks that the packages under scheduler/internal (module.go of each) register for
--     the start and the stop of the scheduler, on the process with its goroutines and contexts.
--     Process/App: scheduler/cmd/server/main.go, the functions that it gives to fx and what they
--     need; fx is a record, with laws on the order of hooks, and every order of the constructors
--     that respects the needs is allowed. Process/Servers: the hooks of
--     activator/internal/transport/http.go, mock-sandbox/internal/server/server.go and
--     mock-sandbox/cmd/sandbox/main.go.
--   Base: what the modules share. Tests: the theorems at concrete inputs, against a small Redis
--     server and a small cluster. Every other module is a child that holds the proofs about its
--     parent.
--
-- State is passed explicitly: a method takes the state of Redis (R), of the cluster (K) or of both
-- (Sys R K), and returns its results and the new state. Logging is left out. The clock, random bytes
-- and contexts are arguments. Where a loop waits, `elapse` is what the other clients do to the state
-- between two ticks, and the context gives the number of ticks before it ends, so that such a loop
-- is recursion on that number. A job that runs for ever is a function of the ticks that come before
-- it is stopped. Times to live do not run out inside a model, nor between the steps of the callers
-- of the idempotence store.
--
-- Fuel. encodeBase36 has 13 rounds, since 36^13 is above 2^63. The cleanup has fuel for its pages,
-- and returns none where it runs out: as much as there are pages is enough. A decimal number has 20
-- digits, enough for any below 10^20. Machine integers: the sum in GenerateSandboxID wraps at 2^64,
-- and is taken as negative from 2^63 on; counts, timestamps and settings are natural numbers, and a
-- subtraction stops at 0 where the code tests for a result that is not positive.
--
-- Not modelled: the wait for a signal, the loggers, the HTTP and gRPC servers behind their hooks, the
-- main of the activator, which runs one hook, and the unused StartServer of
-- scheduler/internal/transport/http/server.go; generated protocol code; the subscription itself (its
-- loop is, on the messages that it receives). None of it decides anything: it starts what is
-- modelled.
mod Base
pub mod Errors
pub mod Config
pub mod Types
pub mod Persistence
pub mod Kube
pub mod Scheduler
pub mod Pool
pub mod Xds
pub mod Project
pub mod Activator
pub mod Transport
pub mod MockSandbox
pub mod CleanupJob
pub mod Process
mod Tests
