-- ===== src/Examples/Placement.antt =====
-- A cluster with one GPU node and one pod, and a Gateway with two TCP listeners.
use exalsius_operator.Gpu.{
  model_label_of, default_model_label, resource_nvidia_gpu, vendor_nvidia, default_options,
  node_matches_selector, node_selector_for_model, vendor_label_of, resolve_model_selector,
  build_selector,
}
use exalsius_operator.Gpu.Availability.{
  scan_resource, scan_resources, scan_nodes, selected, finish_scan, availability_for_selector,
  available_for_model, used_gpus, container_sum, pod_use,
}
use exalsius_operator.Gpu.Gate.{
  has_gpu, node_gpus, availability-found, available_for_model-selector,
}
use exalsius_operator.Gpu.Inventory.{
  offered, offered-derive_offerings, IsPlaceable, derive_offerings-IsPlaceable,
  derive_offerings-found,
}
use exalsius_operator.Gpu.Offerings.{
  Offering, offer_resource, offer_resources, offer_nodes, sort_offerings, derive_offerings,
  add_count, gpu_labels, offering_vendor, fresh_offering, insert_offering,
}
use exalsius_operator.Kube.{
  Labels, Node, Pod, node_is_schedulable, status_true, running, amount, pod_consumes,
}
use exalsius_operator.PortPool.{
  Listener, BackendRef, TcpRoute, GatewayName, insert_listener, tcp_listeners, section_of,
  allocated_section, pool_port, route_rules_equal, ensure_existing, ensure_tcp_route, update_route,
}
use exalsius_operator.PortPool.Exclusive.{ensure_tcp_route_sticky}
use exalsius_operator.Prelude.{
  ◌-◌, ◌≡◌, refl, true, false, ◌&&◌, none, some, List, [], ◌∷◌, map, Memᴰ, Text, bytes, text_eq,
  is_empty, keep, any, All, sum, is_nil, sym, subst, arith, lookup, label, has_prefix, ◌≤◌, insert,
  merge,
}
use exalsius_operator.Queue.{
  Deployment, goes_before, has_older_waiting_sibling, gate_on, gate_gpu_offering,
}
use exalsius_operator.Queue.Admission.{gate_gpu_offering-ok, WaitsBefore}
use exalsius_operator.Gpu.Free.{availability-free, advertised, held_by_pods}
use exalsius_operator.Gpu.Placeable.{can_place}
use exalsius_operator.Resources.{
  WorkspaceResourceSpec, merge_resources, gpu_selector_of, gpu_demand,
}
use exalsius_operator.Workspace.{phase_pending}
use exalsius_operator.Mesh.{label_workspace}

abbrev model : Text
model = bytes "L40"

abbrev gpus : Labels
gpus = (default_model_label, model) ∷ []

abbrev node_a : Node
node_a = record {
  name = bytes "a";
  labels = gpus;
  unschedulable = false;
  conditions = (bytes "Ready", status_true) ∷ [];
  allocatable = (resource_nvidia_gpu, 2) ∷ [];
}

abbrev pod_a : Pod
pod_a = record {
  node_name = bytes "a";
  phase = running;
  containers = ((resource_nvidia_gpu, 1) ∷ []) ∷ [];
}

abbrev nodes : List Node
nodes = node_a ∷ []

abbrev pods : List Pod
pods = pod_a ∷ []

availability-found_example :
    (availability_for_selector nodes pods gpus).found
    ≡ any (λ n. can_place gpus n && has_gpu n) nodes
unfolding is_empty
availability-found_example = availability-found nodes pods gpus (λ e. ground (arith, e)) refl

availability-free_example :
    (availability_for_selector nodes pods gpus).free
    ≡ advertised gpus nodes - held_by_pods gpus nodes pods
unfolding availability_for_selector scan_nodes scan_resources scan_resource finish_scan selected
    node_matches_selector node_is_schedulable text_eq label lookup amount is_empty
availability-free_example = availability-free nodes pods gpus refl refl

available_for_model-selector_example : available_for_model nodes pods model default_options ≡ (
  (availability_for_selector nodes pods (node_selector_for_model model default_options)).free,
  (availability_for_selector nodes pods (node_selector_for_model model default_options)).found,
)
available_for_model-selector_example = available_for_model-selector nodes pods model default_options

offered-derive_offerings_example :
    offered (derive_offerings nodes default_options)
    ≡ sum (map node_gpus (keep node_is_schedulable nodes))
offered-derive_offerings_example = offered-derive_offerings nodes default_options

derive_offerings-IsPlaceable_example :
    All (IsPlaceable nodes) (derive_offerings nodes default_options)
derive_offerings-IsPlaceable_example = derive_offerings-IsPlaceable nodes default_options

abbrev offering_a : Offering
offering_a = record {
  vendor = vendor_nvidia;
  model = model;
  resource_name = resource_nvidia_gpu;
  selector = gpus;
  profile = [];
  nodes = 1;
  total = 2;
  labels = gpus;
}

derived_a : derive_offerings nodes default_options ≡ offering_a ∷ []
unfolding derive_offerings offer_nodes offer_resources offer_resource sort_offerings
    node_is_schedulable text_eq amount lookup label add_count insert_offering fresh_offering
    offering_vendor resolve_model_selector gpu_labels is_empty has_prefix vendor_label_of
    model_label_of
derived_a = refl

derive_offerings-found_example :
    (availability_for_selector nodes pods offering_a.selector).found ≡ true
derive_offerings-found_example =
    derive_offerings-found nodes pods default_options offering_a
      (subst (Memᴰ offering_a) (sym derived_a) (Memᴰ.head refl)) (λ e. ground (arith, e))

abbrev gateway : GatewayName
gateway = record { name = bytes "tenant"; namespace = bytes "mesh" }

abbrev listeners : List Listener
listeners =
    record { name = bytes "tcp-2"; port = 30002; is_tcp = true }
    ∷ record { name = bytes "tcp-1"; port = 30001; is_tcp = true }
    ∷ []

abbrev backend : BackendRef
backend = record { name = bytes "ssh"; port = some 22 }

abbrev held_route : TcpRoute
held_route = record {
  name = bytes "ssh";
  namespace = bytes "ws-one";
  labels = (label_workspace, bytes "one") ∷ [];
  parent_refs =
      record {
        name = bytes "tenant";
        section_name = some (bytes "tcp-1");
        namespace = some (bytes "mesh");
      }
      ∷ [];
  rules = [];
  programmed = true;
}

abbrev created_route : TcpRoute
created_route = record {
  name = bytes "ssh";
  namespace = bytes "ws-two";
  labels = (label_workspace, bytes "two") ∷ [];
  parent_refs =
      record {
        name = bytes "tenant";
        section_name = some (bytes "tcp-2");
        namespace = some (bytes "mesh");
      }
      ∷ [];
  rules = (backend ∷ []) ∷ [];
  programmed = false;
}

ensure_tcp_route_sticky_example :
    (r : TcpRoute) × (update_route (record held_route { rules = (backend ∷ []) ∷ [] })
      ≡ update_route r)
    × (allocated_section gateway r ≡ allocated_section gateway held_route)
unfolding ensure_tcp_route ensure_existing tcp_listeners insert_listener pool_port allocated_section
    section_of route_rules_equal text_eq is_nil is_empty
ensure_tcp_route_sticky_example =
    ensure_tcp_route_sticky gateway listeners (bytes "ws-one") (bytes "one") (bytes "ssh") backend
      held_route none true (update_route (record held_route { rules = (backend ∷ []) ∷ [] })) refl

abbrev request : WorkspaceResourceSpec Text
request = record {
  replicas = none;
  per_replica = record {
    cpu = none;
    memory = none;
    storage = none;
    gpu_count = some 1;
    gpu_vendor = none;
    gpu_type = some model;
    gpu_node_selector = none;
  };
}

abbrev workspace_a : Deployment Text
workspace_a = record {
  age = record { created = 10; uid = bytes "u" };
  cluster_name = bytes "c";
  cluster_namespace = bytes "n";
  resources = some request;
  resolved_resources = none;
  status = record {
    phase = phase_pending;
    conditions = [];
    failure_context = none;
    observed_generation = 1;
  };
}

gate_gpu_offering-ok_example :
    (any (λ n. can_place gpus n && has_gpu n) nodes ≡ true)
    × (gpu_demand (merge_resources request (some request))
        ≤ advertised gpus nodes - held_by_pods gpus nodes pods)
    × All (λ s. ¬ WaitsBefore workspace_a gpus s) (workspace_a ∷ [])
unfolding gate_gpu_offering gate_on has_older_waiting_sibling goes_before availability_for_selector
    scan_nodes scan_resources scan_resource finish_scan selected node_matches_selector
    node_is_schedulable text_eq label lookup amount is_empty is_nil merge_resources gpu_selector_of
    gpu_demand build_selector merge model_label_of used_gpus pod_use insert pod_consumes
    container_sum
gate_gpu_offering-ok_example =
    gate_gpu_offering-ok request workspace_a true nodes pods (workspace_a ∷ []) refl refl refl
