-- ===== src/Xds/Snapshot.antt =====
-- The Envoy resources that `UpdateSnapshot` builds (scheduler/internal/xds/server.go). Of the
-- protocol's messages, the fields that the code sets.
use k8s_sched_demo.Types.Ids.{SandboxId, ProjectId}
use k8s_sched_demo.Base.{some, [], ◌∷◌, ◌++◌, ℕ, none, codes, Text, Option, List}

-- A STRICT_DNS cluster with ROUND_ROBIN and one endpoint over TCP.
pub record Cluster : Type 0 where
  pub name : Text
  pub connect_timeout_secs : ℕ
  pub address : Text
  pub port : ℕ

-- A route for all paths ("/"); `project_id` is the exact value asked of the header "Project-Id", if
-- the route has a header matcher.
pub record Route : Type 0 where
  pub project_id : Option Text
  pub cluster : Text

pub record VirtualHost : Type 0 where
  pub name : Text
  pub domains : List Text
  pub routes : List Route

pub record RouteConfiguration : Type 0 where
  pub name : Text
  pub virtual_hosts : List VirtualHost

pub record HttpConnectionManager : Type 0 where
  pub stat_prefix : Text
  pub route_config : RouteConfiguration
  pub http_filters : List (Text × Text)  -- the name and the type URL

pub record Listener (A : Type 0) : Type 0 where
  pub name : Text
  pub address : Text
  pub port : ℕ
  pub filters : List (Text × A)

pub record Resources (A : Type 0) : Type 0 where
  pub clusters : List Cluster
  pub endpoints : List Cluster
  pub routes : List RouteConfiguration
  pub listeners : List (Listener A)

abbrev pub activator_cluster_name : Text
activator_cluster_name = codes "activator_cluster"

abbrev pub activator_cluster : Cluster
activator_cluster = record {
  name = activator_cluster_name;
  connect_timeout_secs = 1;
  address = codes "activator.sandbox.svc";
  port = 80;
}

abbrev pub cluster_name : ProjectId → Text
cluster_name project_id = codes "project_" ++ (project_id ++ codes "_cluster")

abbrev pub project_cluster : (ProjectId → Text) → ProjectId → Cluster
project_cluster hostname project_id = record {
  name = cluster_name project_id;
  connect_timeout_secs = 1;
  address = hostname project_id;
  port = 8000;
}

-- Go visits a map in any order; the entries of `routes` stand in the order visited.
unfoldable pub project_clusters : (ProjectId → Text) → List (ProjectId × SandboxId) → List Cluster
project_clusters hostname [] = []
project_clusters hostname ((project_id, sandbox_id) ∷ routes) =
    project_cluster hostname project_id ∷ project_clusters hostname routes

abbrev pub default_route : Route
default_route = record { project_id = none; cluster = activator_cluster_name }

-- A route for each project, and the fallback at the end.
unfoldable pub virtual_routes : List (ProjectId × SandboxId) → List Route
virtual_routes [] = default_route ∷ []
virtual_routes ((project_id, sandbox_id) ∷ routes) =
    record { project_id = some project_id; cluster = cluster_name project_id }
    ∷ virtual_routes routes

unfoldable pub route_configuration : List (ProjectId × SandboxId) → RouteConfiguration
route_configuration routes = record {
  name = codes "local_route";
  virtual_hosts =
      record {
        name = codes "local_service";
        domains = codes "*" ∷ [];
        routes = virtual_routes routes;
      }
      ∷ [];
}

unfoldable pub connection_manager : List (ProjectId × SandboxId) → HttpConnectionManager
connection_manager routes = record {
  stat_prefix = codes "ingress_http";
  route_config = route_configuration routes;
  http_filters =
      (
        codes "envoy.filters.http.router",
        codes "type.googleapis.com/envoy.extensions.filters.http.router.v3.Router",
      )
      ∷ [];
}

unfoldable pub resources :
    {A : Type 0} → (ProjectId → Text) → A → List (ProjectId × SandboxId) → Resources A
resources hostname packed routes = record {
  clusters = activator_cluster ∷ project_clusters hostname routes;
  endpoints = [];
  routes = route_configuration routes ∷ [];
  listeners =
      record {
        name = codes "listener_0";
        address = codes "0.0.0.0";
        port = 8080;
        filters = (codes "envoy.filters.network.http_connection_manager", packed) ∷ [];
      }
      ∷ [];
}
