-- ===== src/Examples/Routing.antt =====
-- A workspace with an HTTP and an SSH endpoint on a child of a regional cluster, which has another
-- workspace's TCPRoute and an orphaned namespace.
use exalsius_operator.Kube.{found}
use exalsius_operator.Mesh.{
  label_workspace, created, ambient, mesh_namespace_labels, mirror_namespace_labels,
  apply_missing_labels, Namespace,
}
use exalsius_operator.Naming.{
  workspace_namespace_name, waypoint_name, helm_release_name, endpoint_service_name,
}
use exalsius_operator.PortPool.{
  TcpRoute, GatewayName, section_of, allocated_section, insert_listener, tcp_listeners,
  allocated_sections, first_free, pool_port, equal_port_ptr, route_rules_equal, new_route,
  ensure_new, ensure_existing, ensure_tcp_route,
}
use exalsius_operator.Prelude.{
  ◌≡◌, refl, true, false, none, some, List, [], ◌∷◌, bytes, text_eq, is_empty, All, lookup, label,
  is_nil, insert, merge, Memᴰ, Text,
}
use exalsius_operator.Provider.{succeeded, Store, Replies, Trial, state_of, faulted, readable}
use exalsius_operator.Provider.Complete.{names, entry_names, ensure_routes-IsServed}
use exalsius_operator.Provider.Context.{
  Gateway, tenant_domain_from_gateway, Topology, GatewayContext, Target, tcp_protocol,
  https_protocol, gateway_found, resolve_gateway_context, domain_loop, expect_gateway,
  ensure_waypoint_ready,
}
use exalsius_operator.Provider.Domain.{
  described_domain, tenant_domain_from_gateway-described_domain,
}
use exalsius_operator.Provider.Objects.{
  AccessEndpoint, http_endpoint, ssh_endpoint, parents_programmed, desired_spec, heal_mirror,
  ensure_mirror_namespace, mark_labels, mark_service_global, heal_service, ensure_mirror_service,
  heal_http_route, ensure_http_route,
}
use exalsius_operator.Provider.Pool.{IsExclusive, ensure_routes-IsExclusive}
use exalsius_operator.Provider.Routes.{
  EndpointAccess, Setting, ensure_routes, pool_url, hostname_label, takes_primary, write_tcp_route,
  route_http, route_tcp, route_endpoint, route_endpoints,
}
use exalsius_operator.Provider.Served.{has_waypoint, IsServed, IsPlaced}
use exalsius_operator.Regional.{
  label_kof_regional_cluster_name, label_kof_cluster_name, label_kof_cluster_role, Cluster,
  has_label, find_regional_cluster_deployment,
}
use exalsius_operator.Sweep.{
  RegionalAnswers, sweep_once, delete_namespace, delete_tcp_routes, is_kept, sweep_namespaces,
  sweep_cluster, sweep_clusters, list_regional_cluster_deployments, sweep_orphans,
}
use exalsius_operator.Sweep.Orphans.{IsAboutOrphan, sweep_once-IsAboutOrphan}
use exalsius_operator.Sweep.Complete.{sweep_once-Memᴰ}

abbrev gateway_name : GatewayName
gateway_name = record { name = bytes "gw"; namespace = bytes "infra" }

abbrev setting : Setting
setting = record {
  gateway = gateway_name;
  mesh = record { mode = ambient; waypoint_enabled = true; waypoint_namespace = bytes "infra" };
  hex = λ n v. v;
  decimal = λ n. n ∷ [];
  same_ports = λ a b. true;
  same_spec = λ a b. true;
}

abbrev replies : Replies
replies = record {
  namespace_read = true;
  namespace_creation = created;
  namespace_update = true;
  service_read = λ n. true;
  service_creation = λ n. created;
  service_update = λ n. true;
  child_read = λ n. true;
  child_update = λ n. true;
  http_read = λ n. true;
  http_creation = λ n. created;
  http_update = λ n. true;
  tcp_read = λ n. readable;
  tcp_listing = λ n. true;
  tcp_creation = λ n. created;
  tcp_update = λ n. true;
}

abbrev regional : Cluster
regional = record {
  name = bytes "r";
  namespace = bytes "kcm";
  labels =
      (label_kof_cluster_name, bytes "region") ∷ (label_kof_cluster_role, bytes "regional") ∷ [];
}

abbrev gateway : Gateway
gateway = record {
  listeners =
      record {
        name = bytes "web";
        port = 443;
        protocol = https_protocol;
        hostname = some (bytes "*.x.io");
      }
      ∷ record { name = bytes "t1"; port = 31001; protocol = tcp_protocol; hostname = none }
      ∷ record { name = bytes "t2"; port = 31002; protocol = tcp_protocol; hostname = none }
      ∷ [];
  programmed = true;
}

abbrev topology : Topology
topology = record {
  cluster = found ((label_kof_regional_cluster_name, bytes "region") ∷ []);
  clusters = some (regional ∷ []);
  reachable = λ n. true;
  gateway = gateway_found gateway;
  regional_waypoint = λ n. gateway_found gateway;
  child_client = true;
  child_waypoint = λ n. gateway_found gateway;
}

abbrev target : Target
target = record {
  cluster_namespace = bytes "kcm";
  cluster_name = bytes "c";
  workspace_name = bytes "w";
}

abbrev endpoints : List AccessEndpoint
endpoints =
    record { name = bytes "ui"; protocol = http_endpoint; port = 80; service_name = [] }
    ∷ record { name = bytes "sh"; protocol = ssh_endpoint; port = 22; service_name = [] }
    ∷ []

-- The TCPRoute of another workspace, on the first TCP listener.
abbrev other_route : TcpRoute
other_route = record {
  name = bytes "sh";
  namespace = bytes "ws-o";
  labels = (label_workspace, bytes "o") ∷ [];
  parent_refs =
      record {
        name = bytes "gw";
        section_name = some (bytes "t1");
        namespace = some (bytes "infra");
      }
      ∷ [];
  rules = [];
  programmed = true;
}

abbrev before : Store
before = record {
  mirror = none;
  services = [];
  http_routes = [];
  tcp_routes = other_route ∷ [];
  child_services = [];
}

abbrev result : Trial (List EndpointAccess)
result = ensure_routes setting replies topology target endpoints before

abbrev result_entries : Trial (List EndpointAccess) → List EndpointAccess
result_entries (succeeded es s) = es
result_entries (faulted e s) = []

ensure_routes-IsExclusive_example : IsExclusive gateway_name (state_of result)
unfolding text_eq is_empty allocated_section section_of
ensure_routes-IsExclusive_example =
    ensure_routes-IsExclusive setting replies topology target endpoints before
      (refl, (refl, (refl, tt))) (refl, tt)

succeeds : result ≡ succeeded (result_entries result) (state_of result)
unfolding ensure_routes resolve_gateway_context is_empty label lookup text_eq
    find_regional_cluster_deployment expect_gateway tenant_domain_from_gateway ensure_waypoint_ready
    ensure_mirror_namespace heal_mirror route_endpoints route_endpoint endpoint_service_name
    helm_release_name route_http hostname_label ensure_mirror_service apply_missing_labels
    mesh_namespace_labels mirror_namespace_labels waypoint_name workspace_namespace_name
    allocated_section allocated_sections ensure_existing ensure_new ensure_tcp_route equal_port_ptr
    first_free insert_listener new_route pool_port route_rules_equal section_of tcp_listeners is_nil
    insert merge domain_loop desired_spec ensure_http_route heal_http_route heal_service mark_labels
    mark_service_global parents_programmed pool_url route_tcp takes_primary write_tcp_route
    has_label
succeeds = refl

ensure_routes-IsServed_example :
    (ctx : GatewayContext) × IsServed setting.hex setting.mesh topology target ctx
    × ((c : Cluster) × IsPlaced topology target c)
    × (true ≡ true)
    × (has_waypoint setting.hex setting.mesh topology.child_waypoint target.cluster_name ≡ true)
    × (entry_names (result_entries result) ≡ names endpoints)
ensure_routes-IsServed_example =
    ensure_routes-IsServed setting replies topology target endpoints before (state_of result)
      (result_entries result) succeeds

-- The regional cluster has the namespace of a workspace that exists, and an orphan.
abbrev answers : Cluster → RegionalAnswers
answers c = record {
  reachable = true;
  namespaces = some (
      (bytes "ws-w", record { labels = (label_workspace, bytes "w") ∷ []; deleting = false })
      ∷ (bytes "ws-o", record { labels = (label_workspace, bytes "o") ∷ []; deleting = false })
      ∷ []);
  tcp_deleted = λ n. true;
}

sweep_once-orphan :
    sweep_once (some (bytes "w" ∷ [])) (some (regional ∷ [])) answers
    ≡ delete_tcp_routes (bytes "r") (bytes "ws-o") none
      ∷ delete_namespace (bytes "r") (bytes "ws-o")
      ∷ []
unfolding sweep_once sweep_orphans list_regional_cluster_deployments sweep_clusters sweep_cluster
    sweep_namespaces is_kept has_label text_eq is_empty label lookup
sweep_once-orphan = refl

sweep_once-IsAboutOrphan_example :
    All
      (IsAboutOrphan (bytes "w" ∷ []) (regional ∷ []) answers)
      (sweep_once (some (bytes "w" ∷ [])) (some (regional ∷ [])) answers)
sweep_once-IsAboutOrphan_example =
    sweep_once-IsAboutOrphan (bytes "w" ∷ []) (some (regional ∷ [])) answers

tenant_domain_from_gateway-described_domain_example :
    tenant_domain_from_gateway gateway.listeners ≡ described_domain gateway.listeners
tenant_domain_from_gateway-described_domain_example =
    tenant_domain_from_gateway-described_domain gateway.listeners

abbrev orphan : Namespace
orphan = record { labels = (label_workspace, bytes "o") ∷ []; deleting = false }

abbrev listed : List (Text × Namespace)
listed =
    (bytes "ws-w", record { labels = (label_workspace, bytes "w") ∷ []; deleting = false })
    ∷ (bytes "ws-o", orphan)
    ∷ []

sweep_once-Memᴰ_example :
    Memᴰ
      (delete_namespace (bytes "r") (bytes "ws-o"))
      (sweep_once (some (bytes "w" ∷ [])) (some (regional ∷ [])) answers)
unfolding has_label label lookup text_eq is_empty
sweep_once-Memᴰ_example =
    sweep_once-Memᴰ (bytes "w" ∷ []) (regional ∷ []) answers regional listed (bytes "ws-o") orphan
      (Memᴰ.head refl) refl refl refl refl (Memᴰ.tail (Memᴰ.head refl)) (refl, refl, refl)
