-- ===== src/Xds/Routing.antt =====
-- Where Envoy sends a request by the routes of a snapshot (scheduler/internal/xds/server.go).
use k8s_sched_demo.Errors.{is_some}
use k8s_sched_demo.Types.Ids.{SandboxId, ProjectId}
use k8s_sched_demo.Xds.Snapshot.{
  connection_manager, HttpConnectionManager, route_configuration, resources, project_clusters,
  activator_cluster, activator_cluster_name, cluster_name, Route, Cluster, Resources,
  virtual_routes,
}
use k8s_sched_demo.Base.{
  text_eq_iff, codes, text_eq-append_right, arith, refl, ◌∷◌, if◌then◌else◌, false, some, none, [],
  ℕ, true, lookup, List, Bool, text_eq, Text, Option, ◌≡◌,
}

-- A request's header "Project-Id" passes a route's matcher, if it has one.
abbrev pub matches : Option Text → Option Text → Bool
matches none header = true
matches (some p) none = false
matches (some p) (some h) = text_eq p h

-- Envoy takes the first route that matches.
unfoldable pub dispatch : Option Text → List Route → Option Text
dispatch header [] = none
dispatch header (r ∷ rs) =
    if matches r.project_id header then some r.cluster else dispatch header rs

-- The address behind a cluster's name.
unfoldable pub address_of : Text → List Cluster → Option (Text × ℕ)
address_of name [] = none
address_of name (c ∷ cs) =
    if text_eq c.name name then some (c.address, c.port) else address_of name cs

-- Where a request to the first listener ends, by the routes inside the connection manager that the
-- listener carries in packed form: the cluster of its route, looked up among the clusters.
abbrev pub destination :
    {A : Type 0} → (A → HttpConnectionManager) → Option Text → Resources A → Option (Text × ℕ)
destination unpack header res = elim res.listeners [
  | [] ↦ none
  | listener ∷ _ ↦ elim listener.filters [
    | [] ↦ none
    | (name, packed) ∷ _ ↦ elim (unpack packed).route_config.virtual_hosts [
      | [] ↦ none
      | host ∷ _ ↦ elim (dispatch header host.routes) [
        | none ↦ none
        | some cluster ↦ address_of cluster res.clusters
      ]
    ]
  ]
]

dispatch-virtual_routes :
    (p : ProjectId) (routes : List (ProjectId × SandboxId))
    → dispatch (some p) (virtual_routes routes)
      ≡ some (if is_some (lookup p routes) then cluster_name p else activator_cluster_name)
unfolding dispatch virtual_routes lookup
dispatch-virtual_routes p [] = refl
dispatch-virtual_routes p ((q, x) ∷ routes) =
    ground (arith, text_eq_iff q p, dispatch-virtual_routes p routes)

dispatch_no_header :
    (routes : List (ProjectId × SandboxId))
    → dispatch none (virtual_routes routes) ≡ some activator_cluster_name
unfolding dispatch virtual_routes
dispatch_no_header [] = refl
dispatch_no_header ((q, x) ∷ routes) = dispatch_no_header routes

cluster_name-cluster_name :
    (p q : ProjectId) → text_eq (cluster_name p) (cluster_name q) ≡ text_eq p q
unfolding text_eq
cluster_name-cluster_name p q = text_eq-append_right p q (codes "_cluster")

address_of-project_clusters :
    (hostname : ProjectId → Text) (p : ProjectId) (routes : List (ProjectId × SandboxId))
    → is_some (lookup p routes) ≡ true
    → address_of (cluster_name p) (project_clusters hostname routes) ≡ some (hostname p, 8000)
unfolding address_of project_clusters lookup
address_of-project_clusters hostname p [] h = cc
address_of-project_clusters hostname p ((q, x) ∷ routes) h =
    rw (cluster_name-cluster_name q p)
      (ground (arith, text_eq_iff q p, address_of-project_clusters hostname p routes))

address_of-cluster_name :
    (p : ProjectId) (cs : List Cluster)
    → address_of (cluster_name p) (activator_cluster ∷ cs) ≡ address_of (cluster_name p) cs
unfolding address_of text_eq
address_of-cluster_name p cs = refl

address_of-activator :
    (cs : List Cluster)
    → address_of activator_cluster_name (activator_cluster ∷ cs)
      ≡ some (codes "activator.sandbox.svc", 80)
unfolding address_of text_eq
address_of-activator cs = refl

-- The address that a request is meant for, by its header "Project-Id".
abbrev pub meant_for : (ProjectId → Text) → Option Text → List (ProjectId × SandboxId) → Text × ℕ
meant_for hostname none routes = (codes "activator.sandbox.svc", 80)
meant_for hostname (some p) routes =
    if is_some (lookup p routes) then (hostname p, 8000) else (codes "activator.sandbox.svc", 80)

-- By the resources of one snapshot, whose listener carries the connection manager for its routes in
-- packed form, whatever the order in which the routes were visited: a request with the header of a
-- project that has a route goes to the hostname of that project on port 8000; one with any other
-- header, or with none, goes to the activator on port 80.
pub destination-meant_for :
    {A : Type 0} (unpack : A → HttpConnectionManager) (hostname : ProjectId → Text) (packed : A)
    (header : Option Text) (routes : List (ProjectId × SandboxId))
    → unpack packed ≡ connection_manager routes
    → destination unpack header (resources hostname packed routes)
      ≡ some (meant_for hostname header routes)
unfolding resources route_configuration connection_manager
destination-meant_for unpack hostname packed none routes h =
    ground
      (arith, h, dispatch_no_header routes, address_of-activator (project_clusters hostname routes))
destination-meant_for unpack hostname packed (some p) routes h = ground (
  arith,
  h,
  dispatch-virtual_routes p routes,
  address_of-cluster_name p (project_clusters hostname routes),
  address_of-project_clusters hostname p routes,
  address_of-activator (project_clusters hostname routes),
)
