-- ===== src/Examples/Runs.antt =====
-- Runs of the controller on one workspace, and the parts that they call.
use exalsius_operator.World.{World, infra_not_ready}
use exalsius_operator.Run.{
  Object, WorkspaceClass, status_of, phase_of, write_status, update_or_fail, try_update, noted,
}
use exalsius_operator.Kube.{found, not_found, Labels}
use exalsius_operator.Merge.{absent, put_all, put_user, merge_user, merge_values_map, object_values}
use exalsius_operator.Mesh.{ambient, created, ensure_workspace_namespace}
use exalsius_operator.Prelude.{
  ℕ, ◌≡◌, true, false, none, some, [], ◌∷◌, arith, Text, bytes, refl, ap, List, text_eq, lookup,
  or_else, label, is_nil, is_empty, merge,
}
use exalsius_operator.Prerequisites.{deployed}
use exalsius_operator.Reconcile.{
  reconcile, ensure_finalizer, act, prepare, set_up, reconcile_steps, started,
}
use exalsius_operator.Reconcile.Reachable.{
  ran, begins, History, is_deploying, visits, running-visits,
}
use exalsius_operator.Reconcile.Sound.{IsSound, is_phase_running}
use exalsius_operator.Reconcile.Transitions.{reconcile-IsSound}
use exalsius_operator.Resources.{WorkspaceResourceSpec, merge_resources, gpu_selector_of}
use exalsius_operator.Teardown.{Answers, write_ok}
use exalsius_operator.Workspace.{Status, phase_running, deploying, put_condition, set_condition}
use exalsius_operator.Feasibility.{CapacityNode}
use exalsius_operator.Merge.Laws.{get-merge_values_map}
use exalsius_operator.Mesh.Laws.{labels_after, ensure_workspace_namespace-ready}
use exalsius_operator.Naming.{helm_release_name}
use exalsius_operator.Setup.{
  resolve_workspace_class, resolve_cluster_deployment, feasibility_unknown, refresh_feasibility,
}
use exalsius_operator.Values.{Fields, get, put, end, text, field}
use exalsius_operator.Watch.{
  become_running, refetch, on_deployed, watch_services, on_service_set, check_service_readiness,
}
use exalsius_operator.Deploy.{
  resolve_gpu_resource, inject_all, service_entry, note_injected, prepare_values, prepare_namespace,
  write_service_set, ensure_workspace_service_set, install, start_deployment,
}
use exalsius_operator.Deploy.Applies.{MayApply, start_deployment-MayApply}
use exalsius_operator.Inject.{
  inject_resources, inject_standard, inject_node_selector, inject_gpu_resource_name,
}
use exalsius_operator.Gpu.{build_selector}
use exalsius_operator.Deploy.Effects.{applied}

abbrev two_cpus : WorkspaceResourceSpec ℕ
two_cpus = record {
  replicas = some 1;
  per_replica = record {
    cpu = some 2000;
    memory = none;
    storage = none;
    gpu_count = none;
    gpu_vendor = none;
    gpu_type = none;
    gpu_node_selector = none;
  };
}

abbrev class_of_notebooks : WorkspaceClass
class_of_notebooks = record {
  service_template = bytes "notebook";
  default_resources = two_cpus;
  default_values = absent;
  resource_injection = none;
  prerequisites = [];
  access_endpoints = [];
}

abbrev deploying_status : Status
deploying_status = record {
  phase = deploying;
  conditions = [];
  failure_context = none;
  observed_generation = 1;
}

abbrev notebook : Object
notebook = record {
  deployment = record {
    age = record { created = 10; uid = bytes "a" };
    cluster_name = bytes "c";
    cluster_namespace = bytes "n";
    resources = none;
    resolved_resources = none;
    status = deploying_status;
  };
  name = bytes "w";
  class_ref = bytes "notebook";
  values = absent;
  suspend = false;
  is_deleted = false;
  has_finalizer = true;
  generation = 1;
  prerequisites = [];
  feasibility = none;
  access = [];
  service_entry_name = [];
}

abbrev gone : Answers
gone = record {
  since_deletion = 0;
  route_provider = none;
  cluster = not_found;
  service_set = not_found;
  set_delete = write_ok;
  set_patch = write_ok;
  service_set_again = not_found;
  child_client = false;
  namespace = not_found;
  namespace_delete = write_ok;
  finalizer_update = true;
}

-- Everything is there, and the service is deployed.
abbrev deployed_world : World
deployed_world = record {
  now = 20;
  finalizer_added = true;
  class = found class_of_notebooks;
  cluster = found (record { spec_services = []; status_services = []; deleting = false });
  regional_client = false;
  regional_nodes = none;
  regional_pods = none;
  child_client = true;
  nodes = some [];
  pods = some [];
  siblings = some [];
  cluster_again = not_found;
  prerequisite_set = λ t. not_found;
  prerequisite_answers =
      λ t. record { existing = not_found; values_error = false; creation = created };
  service_set = found (record {
    spec_services = [];
    status_services =
        record {
          name = bytes "wsd-c-w";
          template = bytes "notebook";
          namespace = bytes "ws-w";
          state = deployed;
          failure_message = [];
        }
        ∷ [];
  });
  refetched = true;
  route_provider = false;
  routes = infra_not_ready;
  child_client_again = true;
  nodes_again = some [];
  values_serialized = true;
  mesh = record { mode = ambient; waypoint_enabled = false; waypoint_namespace = [] };
  namespace = not_found;
  namespace_creation = created;
  namespace_updated = true;
  own_set = not_found;
  owner_reference = true;
  set_written = true;
  deletion = gone;
  grace_period = 600;
}

abbrev no_show : ℕ → Text
no_show n = []

abbrev no_hex : ℕ → Text → Text
no_hex n t = []

notebook-IsSound : IsSound deploying_status
notebook-IsSound = record {
  unique = tt;
  explained = λ e. ground arith;
  announced = λ e. ground arith;
}

abbrev after_run : Object
after_run = (reconcile no_show no_hex deployed_world [] notebook).1.stored

after_run_phase : phase_of after_run ≡ phase_running
unfolding reconcile reconcile_steps set_up ensure_finalizer resolve_workspace_class prepare
    resolve_cluster_deployment refresh_feasibility feasibility_unknown try_update write_status act
    check_service_readiness on_service_set watch_services refetch on_deployed update_or_fail
    become_running noted set_condition put_condition text_eq helm_release_name is_nil
after_run_phase = refl

reconcile-IsSound_example : IsSound (status_of after_run)
reconcile-IsSound_example =
    reconcile-IsSound no_show no_hex deployed_world [] notebook notebook-IsSound

abbrev one_run : History no_show no_hex notebook after_run
one_run = ran notebook deployed_world [] begins

running-visits_example : visits no_show no_hex notebook is_deploying one_run ≡ true
running-visits_example =
    running-visits no_show no_hex notebook one_run notebook-IsSound refl
      (ap is_phase_running after_run_phase)

abbrev one_node : List CapacityNode
one_node =
    record {
      node = record {
        name = bytes "n";
        labels = [];
        unschedulable = false;
        conditions = [];
        allocatable = [];
      };
      cpu = 4000;
      memory = 0;
      storage = 0;
    }
    ∷ []

abbrev image : Fields
image = field (bytes "image") (text (bytes "jupyter")) end

abbrev own_image : Fields
own_image = field (bytes "image") (text (bytes "mine")) end

get-merge_values_map_example :
    get (bytes "image") own_image
    ≡ or_else (get (bytes "image") own_image) (get (bytes "image") image)
unfolding merge_values_map merge_user put_user put_all put text_eq
get-merge_values_map_example =
    get-merge_values_map (object_values image) (object_values own_image) own_image (bytes "image")
      refl

abbrev sidecar_labels : Labels
sidecar_labels = (bytes "istio-injection", bytes "enabled") ∷ []

ensure_workspace_namespace-ready_example :
    label (bytes "istio-injection") (labels_after not_found (some sidecar_labels)) ≡ bytes "enabled"
unfolding ensure_workspace_namespace text_eq lookup
ensure_workspace_namespace-ready_example =
    ensure_workspace_namespace-ready sidecar_labels not_found created true (some sidecar_labels)
      (bytes "istio-injection") (bytes "enabled") refl refl

-- The values that the first setup computes.
abbrev notebook_values : Fields
notebook_values = (inject_resources no_show end (merge_resources two_cpus none) none).0

start_deployment-MayApply_example :
    MayApply no_hex deployed_world class_of_notebooks notebook
      (service_entry class_of_notebooks notebook notebook_values)
unfolding start_deployment prepare_values inject_all note_injected install prepare_namespace
    ensure_workspace_namespace ensure_workspace_service_set write_service_set update_or_fail
    write_status applied is_nil resolve_gpu_resource merge_values_map merge_user is_empty
    helm_release_name noted set_condition put_condition inject_resources
    exalsius_operator.Inject.inject_standard exalsius_operator.Inject.inject_gpu_resource_name put
    exalsius_operator.Resources.gpu_selector_of exalsius_operator.Gpu.build_selector
    exalsius_operator.Prelude.merge merge_resources exalsius_operator.Inject.inject_node_selector
start_deployment-MayApply_example =
    start_deployment-MayApply no_show no_hex deployed_world class_of_notebooks notebook
      (started [] notebook) (service_entry class_of_notebooks notebook notebook_values) refl refl
      refl
