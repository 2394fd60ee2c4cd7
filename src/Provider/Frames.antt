-- ===== src/Provider/Frames.antt =====
-- The steps of the route provider, other than those of an SSH or TCP endpoint, and the TCPRoutes of
-- the regional cluster.
use exalsius_operator.Prelude.{List, Bool, true, false, Option, none, some, Text}
use exalsius_operator.Kube.{Labels}
use exalsius_operator.Mesh.{
  Namespace, Created, created, already_exists, create_failed, apply_missing_labels,
}
use exalsius_operator.PortPool.{TcpRoute, GatewayName}
use exalsius_operator.Provider.{
  Store, Replies, Service, ServicePort, HttpRoute, HttpRouteSpec, failure, update_by, create_by,
}
use exalsius_operator.Provider.Keeps.{
  Keeps, Keeps-bind, Keeps-if, Keeps-done, Keeps-fault, Keeps-change, Keeps-give, keeps_rules,
}
use exalsius_operator.Provider.Objects.{
  AccessEndpoint, heal_mirror, ensure_mirror_namespace, mark_labels, mark_service_global,
  heal_service, ensure_mirror_service, heal_http_route, ensure_http_route,
}

module _ (I : List TcpRoute → Type 0) where
  abbrev pub OfRoutes : Store → Type 0
  OfRoutes s = I s.tcp_routes

  Keeps-update :
      (b : Bool) (f : Store → Store)
      → ((s : Store) → OfRoutes s → OfRoutes (f s))
      → Keeps OfRoutes (update_by b f)
  Keeps-update true f h = Keeps-change f h
  Keeps-update false f h = Keeps-fault failure

  Keeps-create :
      (c : Created) (f : Store → Store)
      → ((s : Store) → OfRoutes s → OfRoutes (f s))
      → Keeps OfRoutes (create_by c f)
  Keeps-create created f h = Keeps-change f h
  Keeps-create already_exists f h = Keeps-done
  Keeps-create create_failed f h = Keeps-fault failure

  module _ (w : Replies) where
    Keeps-heal_mirror :
        (desired : Labels) (m : Option Namespace) → Keeps OfRoutes (heal_mirror w desired m)
    unfolding heal_mirror
    Keeps-heal_mirror desired none = Keeps-create w.namespace_creation _ (λ s h. h)
    Keeps-heal_mirror desired (some ns) = Keeps-if ns.deleting (Keeps-fault failure) (
        Keeps-if (apply_missing_labels ns.labels desired).1
          (Keeps-update w.namespace_update _ (λ s h. h)) Keeps-done)

    pub Keeps-ensure_mirror_namespace :
        (name : Text) (labels : Labels) → Keeps OfRoutes (ensure_mirror_namespace w name labels)
    unfolding ensure_mirror_namespace
    Keeps-ensure_mirror_namespace name labels = search (keeps_rules, Keeps-heal_mirror)

    Keeps-mark_labels :
        (svc_name : Text) (m : Option Labels) → Keeps OfRoutes (mark_labels w svc_name m)
    unfolding mark_labels
    Keeps-mark_labels svc_name none = Keeps-done
    Keeps-mark_labels svc_name (some labels) =
        Keeps-if _ Keeps-done (Keeps-update (w.child_update svc_name) _ (λ s h. h))

    pub Keeps-mark_service_global :
        (svc_name : Text) → Keeps OfRoutes (mark_service_global w svc_name)
    unfolding mark_service_global
    Keeps-mark_service_global svc_name = search (keeps_rules, Keeps-mark_labels)

    module _ (same_ports : List ServicePort → List ServicePort → Bool) where
      Keeps-heal_service :
          (svc_name workspace_name : Text) (ports : List ServicePort) (m : Option Service)
          → Keeps OfRoutes (heal_service w same_ports svc_name workspace_name ports m)
      unfolding heal_service
      Keeps-heal_service svc_name workspace_name ports none =
          Keeps-create (w.service_creation svc_name) _ (λ s h. h)
      Keeps-heal_service svc_name workspace_name ports (some svc) =
          Keeps-if _ (Keeps-update (w.service_update svc_name) _ (λ s h. h)) Keeps-done

      pub Keeps-ensure_mirror_service :
          (svc_name workspace_name : Text) (ep : AccessEndpoint)
          → Keeps OfRoutes (ensure_mirror_service w same_ports svc_name workspace_name ep)
      unfolding ensure_mirror_service
      Keeps-ensure_mirror_service svc_name workspace_name ep =
          search (keeps_rules, Keeps-heal_service)

    module _ (same_spec : HttpRouteSpec → HttpRouteSpec → Bool) (gw : GatewayName) where
      Keeps-heal_http_route :
          (ep_name : Text) (spec : HttpRouteSpec) (m : Option HttpRoute)
          → Keeps OfRoutes (heal_http_route w same_spec gw ep_name spec m)
      unfolding heal_http_route
      Keeps-heal_http_route ep_name spec none =
          Keeps-bind (Keeps-create (w.http_creation ep_name) _ (λ s h. h)) (λ u. Keeps-give false)
      Keeps-heal_http_route ep_name spec (some route) =
          Keeps-bind (Keeps-if _ Keeps-done (Keeps-update (w.http_update ep_name) _ (λ s h. h)))
            (λ u. Keeps-give _)

      pub Keeps-ensure_http_route :
          (hostname svc_name : Text) (ep : AccessEndpoint)
          → Keeps OfRoutes (ensure_http_route w same_spec gw hostname svc_name ep)
      unfolding ensure_http_route
      Keeps-ensure_http_route hostname svc_name ep = search (keeps_rules, Keeps-heal_http_route)
