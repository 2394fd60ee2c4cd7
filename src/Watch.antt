-- ===== src/Watch.antt =====
-- What the workspace controller does with a workspace that is deploying or running: the state of its
-- ServiceSet (checkServiceReadiness of
-- internal/controller/workspaces/workspacedeployment_controller.go) and its routes (reconcileRoutes of
-- internal/controller/workspaces/routes.go).
use exalsius_operator.Run.ConditionType
use exalsius_operator.Run.{
  stop, done, continue, exit, ◌>>=◌, ◌>>◌, RouteEntry, Object, WorkspaceClass, M, object_of, modify,
  update_or_fail, try_update, when, status_of, with_status, note, fail_with, requeue_interval,
  requeue_after, returned, returned_error, noted,
}
use exalsius_operator.World.{World, Routed, routed, routing_failed, infra_not_ready}
use exalsius_operator.Kube.{
  ConditionStatus, not_found, found, status_false, get_failed, status_true, Fetched,
}
use exalsius_operator.Naming.{helm_release_name}
use exalsius_operator.Prelude.{
  ℕ, Bool, true, false, not, ◌&&◌, Option, none, some, List, [], ◌∷◌, Text, bytes, text_eq, is_nil,
  if◌then◌else◌,
}
use exalsius_operator.Prerequisites.{
  ServiceState, StatusService, deployed, other_state, service_failed, ServiceSet,
}
use exalsius_operator.Workspace.{Condition, Status, same_status, phase_running}
use exalsius_operator.Workspace.Conditions.{find_condition}
use exalsius_operator.Run.ConditionType.{helm_release_ready, routes_ready}

abbrev pub health_interval : ℕ
health_interval = 60

-- The status of a service that is deployed, at a time and a generation
unfoldable pub become_running : ℕ → ℕ → Status → Status
become_running now generation st =
    noted now ConditionType.ready status_true (bytes "DeploymentReady") generation (
      noted now ConditionType.helm_release_ready status_true (bytes "HelmReleaseDeployed")
        generation (record st { phase = phase_running; failure_context = none }))

module _ (w : World) where
  -- The second read of the workspace: what was changed in memory is given up.
  unfoldable pub refetch : M (Unit {0})
  refetch r =
      if w.refetched then continue tt (record r { object = r.stored }) else exit returned_error r

  unfoldable pub on_deployed : M (Unit {0})
  on_deployed = do
    o ← object_of
    modify (with_status (become_running w.now o.generation))
    update_or_fail
    stop (requeue_after health_interval)

  unfoldable pub on_service_failed : M (Unit {0})
  on_service_failed = do
    fail_with (bytes "HelmReleaseFailed")
    note w.now ConditionType.helm_release_ready status_false (bytes "HelmReleaseFailed")
    update_or_fail
    stop returned

  abbrev pub on_state : ServiceState → M (Unit {0})
  on_state deployed = on_deployed
  on_state service_failed = on_service_failed
  on_state other_state = done

  -- The loop over the services; one in another state lets it go on.
  unfoldable pub watch_services : Text → List StatusService → M (Unit {0})
  watch_services entry_name [] = stop (requeue_after requeue_interval)
  watch_services entry_name (s ∷ ss) =
      let rest = watch_services entry_name ss in
      if text_eq s.name entry_name then (refetch >> (on_state s.state >> rest)) else rest

  -- checkServiceReadiness, of the ServiceSet as it is read
  unfoldable pub on_service_set : Text → Fetched ServiceSet → M (Unit {0})
  on_service_set entry_name (found ss) = watch_services entry_name ss.status_services
  on_service_set entry_name not_found = stop (requeue_after requeue_interval)
  on_service_set entry_name get_failed = stop returned_error

  unfoldable pub check_service_readiness : M (Unit {0})
  check_service_readiness = do
    o ← object_of
    on_service_set (helm_release_name o.deployment.cluster_name o.name) w.service_set

abbrev same_bool : Bool → Bool → Bool
same_bool true b = b
same_bool false b = not b

unfoldable pub same_entry : RouteEntry → RouteEntry → Bool
same_entry a b =
    (text_eq a.name b.name && text_eq a.url b.url)
    && (same_bool a.ready b.ready && text_eq a.message b.message)

unfoldable pub same_entries : List RouteEntry → List RouteEntry → Bool
same_entries [] [] = true
same_entries [] (b ∷ fs) = false
same_entries (a ∷ es) [] = false
same_entries (a ∷ es) (b ∷ fs) = same_entry a b && same_entries es fs

unfoldable pub all_routed : List RouteEntry → Bool
all_routed [] = true
all_routed (e ∷ es) = e.ready && all_routed es

abbrev pub routes_status : Bool → ConditionStatus
routes_status b = if b then status_true else status_false

abbrev pub routes_reason : Bool → Text
routes_reason b = if b then bytes "RoutesReady" else bytes "RoutingInProgress"

-- The comparison of `prev`; its message is a function of the reason and the entries.
abbrev pub same_routes_condition : Bool → Option Condition → Bool
same_routes_condition b none = false
same_routes_condition b (some c) =
    same_status c.status (routes_status b) && text_eq c.reason (routes_reason b)

unfoldable pub routes_unchanged : Object → List RouteEntry → Bool
routes_unchanged o entries =
    same_entries o.access entries
    && same_routes_condition (all_routed entries)
        (find_condition ConditionType.routes_ready (status_of o).conditions)

abbrev pub set_access : List RouteEntry → Object → Object
set_access entries o = record o { access = entries }

module _ (w : World) where
  unfoldable pub write_routes : List RouteEntry → M (Unit {0})
  write_routes entries = do
    modify (set_access entries)
    note w.now ConditionType.routes_ready (routes_status (all_routed entries))
        (routes_reason (all_routed entries))
    update_or_fail

  unfoldable pub routes_failed : Text → M (Unit {0})
  routes_failed reason = do
    note w.now ConditionType.routes_ready status_false reason
    try_update
    stop (requeue_after requeue_interval)

  unfoldable pub on_routes : Routed → M (Unit {0})
  on_routes infra_not_ready = routes_failed (bytes "RoutingInfraNotReady")
  on_routes routing_failed = routes_failed (bytes "RoutingError")
  on_routes (routed entries) = do
    o ← object_of
    when (not (routes_unchanged o entries)) (write_routes entries)
    if all_routed entries then done else stop (requeue_after requeue_interval)

  -- reconcileRoutes
  unfoldable pub reconcile_routes : WorkspaceClass → M (Unit {0})
  reconcile_routes c =
      if w.route_provider && not (is_nil c.access_endpoints) then on_routes w.routes else done
