-- ===== src/Reconcile/Finish.antt =====
-- The steps of Watch and the phase.
use exalsius_operator.Run.ConditionType
use exalsius_operator.Run.{
  continue, stop, done, RouteEntry, WorkspaceClass, Run, status_of, with_status, requeue_interval,
  returned, returned_error, exit, requeue_after,
}
use exalsius_operator.World.{World, Routed, routing_failed, infra_not_ready, routed}
use exalsius_operator.Run.Keeps.{keep, keep_try, keep_done, leave, Both, Stored}
use exalsius_operator.Reconcile.Phases.{
  Passes, Moved, Unmoved, moved, note-Passes, note-Leaves, update-Leaves, stop-Passes,
  fail_with-Leaves, update-Passes, is_active, become_running-Moved,
}
use exalsius_operator.Run.Ensures.{Triple-look, Triple-bind, Triple-if, Ensures}
use exalsius_operator.Prelude.{
  text_eq, ◌≡◌, refl, Bool, true, false, not, ◌&&◌, List, [], ◌∷◌, Text, bytes, is_nil,
  if◌then◌else◌,
}
use exalsius_operator.Kube.{Fetched, status_false, found, get_failed, not_found}
use exalsius_operator.Prerequisites.{
  ServiceState, StatusService, ServiceSet, deployed, other_state, service_failed,
}
use exalsius_operator.Run.ConditionType.{helm_release_ready, routes_ready}
use exalsius_operator.Watch.{
  health_interval, become_running, refetch, on_deployed, on_service_failed, on_state,
  watch_services, on_service_set, check_service_readiness, all_routed, routes_status, routes_reason,
  routes_unchanged, set_access, write_routes, routes_failed, on_routes, reconcile_routes,
}
use exalsius_operator.Workspace.{Phase}

module _ (w : World) (p : Phase) where
  -- The stored object takes the place of the one in memory.
  refetch-Passes : Passes p (refetch w)
  unfolding refetch
  refetch-Passes = record { at = λ r h. go r h w.refetched }
    where
      go :
          (r : Run)
          → Both (Unmoved p) r
          → (b : Bool)
          → Ensures
              (λ u. Both (Unmoved p))
              (Stored (Moved p))
              (if b then continue tt (record r { object = r.stored }) else exit returned_error r)
      go r h true = (h.1, h.1)
      go r h false = moved p (status_of r.stored) h.1

  on_deployed-Passes : is_active p ≡ true → Passes p (on_deployed w)
  unfolding on_deployed
  on_deployed-Passes a = Triple-look (λ o.
      Triple-bind
        (leave (Unmoved p) (Moved p) (moved p) (with_status (become_running w.now o.generation))
          (λ x h. become_running-Moved p (status_of x) a w.now o.generation h.1))
        (λ u. update-Leaves p (requeue_after health_interval)))

  on_service_failed-Passes : Passes p (on_service_failed w)
  unfolding on_service_failed text_eq
  on_service_failed-Passes = Triple-bind (fail_with-Leaves p (bytes "HelmReleaseFailed")) (λ u.
      Triple-bind
        (note-Leaves p w.now ConditionType.helm_release_ready status_false
          (bytes "HelmReleaseFailed") refl)
        (λ v. update-Leaves p returned))

  on_state-Passes : is_active p ≡ true → (s : ServiceState) → Passes p (on_state w s)
  on_state-Passes a deployed = on_deployed-Passes a
  on_state-Passes a service_failed = on_service_failed-Passes
  on_state-Passes a other_state = keep_done (Unmoved p)

  watch_services-Passes :
      is_active p ≡ true → (t : Text) (ss : List StatusService) → Passes p (watch_services w t ss)
  unfolding watch_services
  watch_services-Passes a t [] = stop-Passes p (requeue_after requeue_interval)
  watch_services-Passes a t (s ∷ ss) =
      Triple-if (text_eq s.name t)
        (λ h.
          Triple-bind refetch-Passes
            (λ u. Triple-bind (on_state-Passes a s.state) (λ v. watch_services-Passes a t ss)))
        (λ h. watch_services-Passes a t ss)

  on_service_set-Passes :
      is_active p ≡ true → (t : Text) (x : Fetched ServiceSet) → Passes p (on_service_set w t x)
  unfolding on_service_set
  on_service_set-Passes a t (found ss) = watch_services-Passes a t ss.status_services
  on_service_set-Passes a t not_found = stop-Passes p (requeue_after requeue_interval)
  on_service_set-Passes a t get_failed = stop-Passes p returned_error

  pub check_service_readiness-Passes : is_active p ≡ true → Passes p (check_service_readiness w)
  unfolding check_service_readiness
  check_service_readiness-Passes a = Triple-look (λ o. on_service_set-Passes a _ w.service_set)

  write_routes-Passes : (es : List RouteEntry) → Passes p (write_routes w es)
  unfolding write_routes text_eq
  write_routes-Passes es = Triple-bind (keep (Unmoved p) (set_access es) (λ o h. h)) (λ u.
      Triple-bind
        (note-Passes p w.now ConditionType.routes_ready (routes_status (all_routed es))
          (routes_reason (all_routed es)) refl)
        (λ v. update-Passes p))

  routes_failed-Passes : (reason : Text) → Passes p (routes_failed w reason)
  unfolding routes_failed text_eq
  routes_failed-Passes reason =
      Triple-bind (note-Passes p w.now ConditionType.routes_ready status_false reason refl) (λ u.
        Triple-bind (keep_try (Unmoved p)) (λ v. stop-Passes p (requeue_after requeue_interval)))

  on_routes-Passes : (x : Routed) → Passes p (on_routes w x)
  unfolding on_routes
  on_routes-Passes infra_not_ready = routes_failed-Passes (bytes "RoutingInfraNotReady")
  on_routes-Passes routing_failed = routes_failed-Passes (bytes "RoutingError")
  on_routes-Passes (routed es) = Triple-look (λ o.
      Triple-bind
        (Triple-if (not (routes_unchanged o es)) (λ h. write_routes-Passes es)
          (λ h. keep_done (Unmoved p)))
        (λ u.
          Triple-if (all_routed es) {m = done} {n = stop (requeue_after requeue_interval)}
            (λ h. keep_done (Unmoved p)) (λ h. stop-Passes p (requeue_after requeue_interval))))

  pub reconcile_routes-Passes : (c : WorkspaceClass) → Passes p (reconcile_routes w c)
  unfolding reconcile_routes
  reconcile_routes-Passes c =
      Triple-if (w.route_provider && not (is_nil c.access_endpoints))
        (λ h. on_routes-Passes w.routes) (λ h. keep_done (Unmoved p))
