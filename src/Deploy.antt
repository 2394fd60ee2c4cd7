-- ===== src/Deploy.antt =====
-- The first setup of a workspace: its values, its namespace and its ServiceSet (startDeployment,
-- resolveGPUResource and setResourcesInjectedCondition of
-- internal/controller/workspaces/workspacedeployment_controller.go, and ensureWorkspaceServiceSet of
-- internal/controller/workspaces/service_apply.go). The timeouts of Helm are left out.
pub mod Applies
pub mod Effects
use exalsius_operator.Run.ConditionType
use exalsius_operator.Run.{
  stop, done, pure, ◌>>=◌, ◌>>◌, Object, WorkspaceClass, ServiceEntry, M, object_of, modify,
  perform, update_or_fail, try_update, when, with_status, set_phase, note, fail_with,
  requeue_interval, requeue_after, returned_error, panicked, apply_service_set, write_namespace,
}
use exalsius_operator.World.{World}
use exalsius_operator.Gpu.{resource_for_vendor}
use exalsius_operator.Gpu.Availability.{SelectorAvailability, availability_for_selector}
use exalsius_operator.Inject.{
  ResourceInjectionMap, Warning, inject_resources, inject_node_selector, inject_gpu_resource_name,
}
use exalsius_operator.Kube.{
  Labels, Node, status_false, status_true, not_found, get_failed, found, Fetched,
}
use exalsius_operator.Merge.{Merged, merge_values_map, merge_error, merged, merge_panic}
use exalsius_operator.Mesh.{
  namespace_labels, workspace_namespace_labels, Readiness, ensure_workspace_namespace, ensure_error,
  ready, not_ready,
}
use exalsius_operator.Naming.{helm_release_name, workspace_namespace_name}
use exalsius_operator.Prelude.{
  ℕ, not, ◌&&◌, Option, none, some, List, [], ◌∷◌, Text, bytes, is_empty, is_nil, if◌then◌else◌,
}
use exalsius_operator.Resources.{WorkspaceResourceSpec, merge_resources, gpu_selector_of}
use exalsius_operator.Run.ConditionType.{resources_injected}
use exalsius_operator.Values.{Fields, end}
use exalsius_operator.Workspace.{Status, phase_pending, deploying}
use exalsius_operator.Prerequisites.{ServiceSet, own_set}

abbrev pub vendor_resource : Option Text → Text
vendor_resource none = []
vendor_resource (some v) = resource_for_vendor v

-- A vendor that the user has set stays.
abbrev pub or_vendor : Text → Option Text → Option Text
or_vendor v none = some v
or_vendor v (some u) = some u

-- resolveGPUResource: the resolved resources with their vendor, and the resource name
module _ {Q : Type 0} where
  abbrev pub unresolved : WorkspaceResourceSpec Q → WorkspaceResourceSpec Q × Text
  unresolved r = (r, vendor_resource r.per_replica.gpu_vendor)

  abbrev pub resolved_by :
      SelectorAvailability → WorkspaceResourceSpec Q → WorkspaceResourceSpec Q × Text
  resolved_by avail r = (
    record r {
      per_replica = record (r.per_replica) {
        gpu_vendor = or_vendor avail.vendor r.per_replica.gpu_vendor;
      };
    },
    avail.resource_name,
  )

  unfoldable pub resolve_gpu_resource :
      Option (List Node) → WorkspaceResourceSpec Q → WorkspaceResourceSpec Q × Text
  resolve_gpu_resource none r = unresolved r
  resolve_gpu_resource (some nodes) r =
      let avail = availability_for_selector nodes [] (gpu_selector_of r) in
      if is_nil (gpu_selector_of r)
      then unresolved r
      else (if avail.found then resolved_by avail r else unresolved r)

module _ (show : ℕ → Text) where
  -- The three injections into the merged map, of which each leaves a nil map as it is. A nil map is
  -- written as an empty one.
  unfoldable pub inject_all :
      Option Fields
      → WorkspaceResourceSpec ℕ
      → Text
      → Option ResourceInjectionMap
      → Fields × List Warning
  inject_all none r resource im = (end, [])
  inject_all (some m) r resource im =
      let (values, warnings) = inject_resources show m r im in
      (
        inject_gpu_resource_name (inject_node_selector values (gpu_selector_of r)) resource,
        warnings,
      )

abbrev pub set_resolved : WorkspaceResourceSpec ℕ → Object → Object
set_resolved r o = record o { deployment = record o.deployment { resolved_resources = some r } }

abbrev pub set_entry_name : Text → Object → Object
set_entry_name t o = record o { service_entry_name = t }

abbrev pub start_deploying : ℕ → Status → Status
start_deploying generation st = record st {
  phase = deploying;
  failure_context = none;
  observed_generation = generation;
}

-- A terminal failure whose error is returned.
unfoldable pub fail_run : {A : Type 0} → M A
fail_run = do fail_with (bytes "InternalError"); try_update; stop returned_error

-- What is not there yet keeps the workspace pending.
unfoldable pub keep_pending : {A : Type 0} → M A
keep_pending = do
  modify (set_phase phase_pending)
  try_update
  stop (requeue_after requeue_interval)

abbrev pub merged_or_fail : Merged → M (Option Fields)
merged_or_fail merge_error = fail_run
merged_or_fail merge_panic = stop panicked
merged_or_fail (merged m) = pure m

abbrev pub note_labels : Option Labels → M (Unit {0})
note_labels none = done
note_labels (some labels) = perform (write_namespace labels)

abbrev pub on_readiness : Readiness → M (Unit {0})
on_readiness ready = done
on_readiness not_ready = keep_pending
on_readiness ensure_error = stop returned_error

abbrev pub settle_namespace : Readiness × Option Labels → M (Unit {0})
settle_namespace (readiness, labels) = note_labels labels >> on_readiness readiness

abbrev pub service_entry : WorkspaceClass → Object → Fields → ServiceEntry
service_entry c o values = record {
  name = helm_release_name o.deployment.cluster_name o.name;
  namespace = workspace_namespace_name o.name;
  template = c.service_template;
  values = values;
}

module _ (w : World) where
  -- setResourcesInjectedCondition
  unfoldable pub note_injected : List Warning → M (Unit {0})
  note_injected [] =
      note w.now ConditionType.resources_injected status_true (bytes "ResourcesInjected")
  note_injected (x ∷ xs) =
      note w.now ConditionType.resources_injected status_false (bytes "UserPathsOverwritten")

  abbrev pub noted_values : Fields × List Warning → M Fields
  noted_values (values, warnings) = note_injected warnings >> pure values

module _ (show : ℕ → Text) (hex : ℕ → Text → Text) (w : World) where
  -- The values of the release, for the resolved resources and the name of the GPU resource
  unfoldable pub prepare_values : WorkspaceClass → WorkspaceResourceSpec ℕ → Text → M Fields
  prepare_values c r resource = do
    o ← object_of
    m ← merged_or_fail (merge_values_map c.default_values o.values)
    values ← noted_values w (inject_all show m r resource c.resource_injection)
    if w.values_serialized then pure values else fail_run

  -- The namespace on the child cluster
  unfoldable pub prepare_namespace : M (Unit {0})
  prepare_namespace = do
    o ← object_of
    let desired =
        workspace_namespace_labels o.name (namespace_labels hex w.mesh o.deployment.cluster_name)
    settle_namespace
        (ensure_workspace_namespace desired w.namespace w.namespace_creation w.namespace_updated)

  unfoldable pub write_service_set : ServiceEntry → M (Unit {0})
  write_service_set svc = do
    perform (apply_service_set svc)
    if w.set_written then done else fail_run

  -- ensureWorkspaceServiceSet, of the ServiceSet as it is read; its error is a terminal failure.
  unfoldable pub ensure_workspace_service_set : ServiceEntry → Fetched ServiceSet → M (Unit {0})
  ensure_workspace_service_set svc (found ss) = write_service_set svc
  ensure_workspace_service_set svc not_found =
      if w.owner_reference then write_service_set svc else fail_run
  ensure_workspace_service_set svc get_failed = fail_run

  -- The last steps: the namespace, the ServiceSet and the phase
  unfoldable pub install : WorkspaceClass → Fields → M (Unit {0})
  install c values = do
    prepare_namespace
    o ← object_of
    ensure_workspace_service_set (service_entry c o values) w.own_set
    modify (with_status (start_deploying o.generation))
    update_or_fail
    stop (requeue_after requeue_interval)

  -- The rest of startDeployment, behind resolveGPUResource
  abbrev pub deploy_resolved : WorkspaceClass → WorkspaceResourceSpec ℕ × Text → M (Unit {0})
  deploy_resolved c (r, resource) = do
    modify (set_resolved r)
    values ← prepare_values c r resource
    install c values

  -- startDeployment
  unfoldable pub start_deployment : WorkspaceClass → M (Unit {0})
  start_deployment c = do
    o ← object_of
    let resolved = merge_resources c.default_resources o.deployment.resources
    modify (set_resolved resolved)
    modify (set_entry_name (helm_release_name o.deployment.cluster_name o.name))
    when (not w.child_client_again) keep_pending
    deploy_resolved c (resolve_gpu_resource w.nodes_again resolved)
