-- ===== src/Provider/Pool.antt =====
-- The port pool over the whole of EnsureRoutes of
-- internal/controller/workspaces/routing/gatewayapi/provider.go.
use exalsius_operator.PortPool
use exalsius_operator.Prelude.{
  refl, subst, Bool, false, Option, none, some, List, [], ◌∷◌, Text, if◌then◌else◌,
}
use exalsius_operator.PortPool.{
  GatewayName, Listener, TcpRoute, BackendRef, allocated_section, RouteAnswer, route_found,
  route_missing, route_kind_missing, route_error, RouteWrite, create_route, update_route,
  ensure_tcp_route, ensure_new, ensure_existing,
}
use exalsius_operator.PortPool.Exclusive.{HasName}
use exalsius_operator.Provider.Exclusive.{sections, Distinct, apply-Distinct, answer_found}
use exalsius_operator.Provider.Frames.{
  Keeps-ensure_mirror_namespace, Keeps-mark_service_global, Keeps-ensure_mirror_service,
  Keeps-ensure_http_route, OfRoutes,
}
use exalsius_operator.Provider.{Store, Replies, state_of, failure}
use exalsius_operator.Provider.Keeps.{
  Keeps, keeps_rules, Keeps-bind, Keeps-fault, Keeps-give, Keeps-read, reads_when,
}
use exalsius_operator.Provider.Objects.{AccessEndpoint}
use exalsius_operator.Provider.Routes.{
  Setting, tcp_answer, pool_listeners, tcp_written, tcp_entry, write_tcp_route, route_http,
  route_tcp, route_endpoint, route_endpoints, ensure_routes,
}
use exalsius_operator.Provider.Context.{GatewayContext, Target, Topology, listeners_of}
use exalsius_operator.Provider.Served.{reads-ensure_waypoint_ready, reads-resolve_gateway_context}

abbrev HasDistinct : GatewayName → List TcpRoute → Type 0
HasDistinct gw rs = Distinct (sections gw rs)

-- The TCPRoutes of the regional cluster hold no section twice.
abbrev pub IsExclusive : GatewayName → Store → Type 0
IsExclusive gw = OfRoutes (HasDistinct gw)

module _ (x : Setting) (w : Replies) where
  Keeps-tcp_entry :
      (domain : Text) (ep : AccessEndpoint) (e : Option PortPool.AccessEntry)
      → Keeps (IsExclusive x.gateway) (tcp_entry x w domain ep e)
  Keeps-tcp_entry domain ep none = Keeps-fault failure
  Keeps-tcp_entry domain ep (some e) = Keeps-give _

  Keeps-write_tcp_route :
      (ctx : GatewayContext) (ns svc_name ws : Text) (ep : AccessEndpoint)
      → HasName (pool_listeners ctx.gateway.listeners)
      → Keeps (IsExclusive x.gateway) (write_tcp_route x w ctx ns svc_name ws ep)
  unfolding write_tcp_route
  Keeps-write_tcp_route ctx ns svc_name ws ep h = record {
    at = λ s d.
        let ls = pool_listeners ctx.gateway.listeners in
        let b : BackendRef = record { name = svc_name; port = some ep.port } in
        let a = tcp_answer w ep.name ns s in
        let e =
          ensure_tcp_route x.gateway ls ns ws ep.name b a
            (if w.tcp_listing ep.name then some s.tcp_routes else none) (tcp_written w ep.name a) in
        (Keeps-tcp_entry ctx.domain ep e.entry).at _ (
          apply-Distinct x.gateway w ls ws ep.name ns b s.tcp_routes a (w.tcp_listing ep.name)
            (tcp_written w ep.name a) e.write h (answer_found w ep.name ns s) d refl);
  }

  module _ (ctx : GatewayContext) (target : Target)
      (h : HasName (pool_listeners ctx.gateway.listeners)) where
    Keeps-route_http :
        (svc_name hostname : Text) (ep : AccessEndpoint)
        → Keeps (IsExclusive x.gateway) (route_http x w ctx target svc_name hostname ep)
    unfolding route_http
    Keeps-route_http svc_name hostname ep = search (
      keeps_rules, Keeps-ensure_mirror_service, Keeps-mark_service_global, Keeps-ensure_http_route,
    )

    Keeps-route_endpoint :
        (primary : Bool) (ep : AccessEndpoint)
        → Keeps (IsExclusive x.gateway) (route_endpoint x w ctx target primary ep)
    unfolding route_endpoint route_tcp
    Keeps-route_endpoint primary ep = search (
      keeps_rules, Keeps-route_http, Keeps-ensure_mirror_service, Keeps-mark_service_global,
      Keeps-write_tcp_route,
    )

    Keeps-route_endpoints :
        (primary : Bool) (eps : List AccessEndpoint)
        → Keeps (IsExclusive x.gateway) (route_endpoints x w ctx target primary eps)
    unfolding route_endpoints
    Keeps-route_endpoints primary [] = Keeps-give []
    Keeps-route_endpoints primary (ep ∷ eps) =
        let rest = λ (p : Bool). Keeps-route_endpoints p eps in
        search (keeps_rules, Keeps-route_endpoint, rest)

-- EnsureRoutes keeps the port pool exclusive, however it ends: if no two TCPRoutes on the regional
-- cluster hold the same section of the tenant Gateway, then no two do after a call, for every list of
-- endpoints and whichever requests fail, if every listener of the Gateway has a name and nobody else
-- writes TCPRoutes during the call.
pub ensure_routes-IsExclusive :
    (x : Setting) (w : Replies) (t : Topology) (target : Target) (eps : List AccessEndpoint)
    (s : Store)
    → HasName (pool_listeners (listeners_of t.gateway))
    → IsExclusive x.gateway s
    → IsExclusive x.gateway (state_of (ensure_routes x w t target eps s))
unfolding ensure_routes
ensure_routes-IsExclusive x w t target eps s h d =
    (Keeps-read {I = IsExclusive x.gateway} (reads-resolve_gateway_context x.hex x.mesh t target)
        (λ ctx q.
          let named : HasName (pool_listeners ctx.gateway.listeners) =
            subst (λ a. HasName (pool_listeners (listeners_of a))) q.0.0 h in
          let I = HasDistinct x.gateway in
          let loop = Keeps-route_endpoints x w ctx target named in
          let waypoint = reads-ensure_waypoint_ready x.hex x.mesh in
          Keeps-bind (Keeps-ensure_mirror_namespace I w _ _) (λ u.
            Keeps-read (reads_when t.child_client failure) (λ u _.
              Keeps-read (waypoint t.child_waypoint target.cluster_name)
                (λ u _. loop false eps))))).at
      s d
