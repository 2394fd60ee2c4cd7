-- ===== src/Provider/Complete.antt =====
-- What EnsureRoutes of internal/controller/workspaces/routing/gatewayapi/provider.go has checked, and
-- whom it has answered for, when it succeeds.
use exalsius_operator.PortPool
use exalsius_operator.Prelude.{
  ◌≡◌, refl, Bool, true, false, ◌||◌, Option, none, some, List, [], ◌∷◌, arith, Text,
}
use exalsius_operator.Provider.{succeeded, failure, Store, Replies}
use exalsius_operator.Provider.Context.{Topology, GatewayContext, Target}
use exalsius_operator.Provider.Keeps.{
  reads_when, Gives, gives_last, gives_bind, gives_read, gives_give, gives_fault, gives_if,
  of_result, gives_weaken,
}
use exalsius_operator.Provider.Objects.{AccessEndpoint, ensure_mirror_namespace}
use exalsius_operator.Provider.Routes.{
  EndpointAccess, Setting, takes_primary, tcp_entry, write_tcp_route, route_http, route_tcp,
  route_endpoint, route_endpoints, ensure_routes,
}
use exalsius_operator.Provider.Served.{
  has_waypoint, IsServed, reads-ensure_waypoint_ready, reads-resolve_gateway_context, IsPlaced,
}
use exalsius_operator.Regional.{Cluster}

abbrev pub names : List AccessEndpoint → List Text
names [] = []
names (ep ∷ eps) = ep.name ∷ names eps

abbrev pub entry_names : List EndpointAccess → List Text
entry_names [] = []
entry_names (e ∷ es) = e.name ∷ entry_names es

module _ (x : Setting) (w : Replies) where
  gives-tcp_entry :
      (domain : Text) (ep : AccessEndpoint) (e : Option PortPool.AccessEntry)
      → Gives (tcp_entry x w domain ep e) (λ a. a.name ≡ ep.name)
  gives-tcp_entry domain ep none = gives_fault failure
  gives-tcp_entry domain ep (some e) = gives_give _ refl

  module _ (ctx : GatewayContext) (target : Target) where
    gives-route_http :
        (svc_name hostname : Text) (ep : AccessEndpoint)
        → Gives (route_http x w ctx target svc_name hostname ep) (λ a. a.name ≡ ep.name)
    unfolding route_http
    gives-route_http svc_name hostname ep = search (gives_last, gives_if, gives_give)

    gives-write_tcp_route :
        (ns svc_name ws : Text) (ep : AccessEndpoint)
        → Gives (write_tcp_route x w ctx ns svc_name ws ep) (λ a. a.name ≡ ep.name)
    unfolding write_tcp_route
    gives-write_tcp_route ns svc_name ws ep = search (gives_last, gives-tcp_entry)

    gives-route_endpoint :
        (primary : Bool) (ep : AccessEndpoint)
        → Gives (route_endpoint x w ctx target primary ep) (λ a. a.name ≡ ep.name)
    unfolding route_endpoint route_tcp
    gives-route_endpoint primary ep =
        search (gives_last, gives_if, gives_give, gives-route_http, gives-write_tcp_route)

    gives-route_endpoints :
        (primary : Bool) (eps : List AccessEndpoint)
        → Gives (route_endpoints x w ctx target primary eps) (λ es. entry_names es ≡ names eps)
    unfolding route_endpoints
    gives-route_endpoints primary [] = gives_give [] refl
    gives-route_endpoints primary (ep ∷ eps) = gives_bind (gives-route_endpoint primary ep) (λ e q.
        gives_bind (gives-route_endpoints (primary || takes_primary target ep) eps)
          (λ es r. gives_give _ (ground (arith, q, r))))

-- Where EnsureRoutes succeeds, the tenant Gateway was found, is programmed and has a domain, the
-- regional and the child cluster could be reached, the waypoints of the cluster are programmed on both sides (where waypoints
-- are in use), and the result has exactly one entry for each endpoint, in the order of the endpoints.
pub ensure_routes-IsServed :
    (x : Setting) (w : Replies) (t : Topology) (target : Target) (eps : List AccessEndpoint)
    (s s' : Store) (es : List EndpointAccess)
    → ensure_routes x w t target eps s ≡ succeeded es s'
    → (ctx : GatewayContext) × IsServed x.hex x.mesh t target ctx
      × ((c : Cluster) × IsPlaced t target c)
      × (t.child_client ≡ true)
      × (has_waypoint x.hex x.mesh t.child_waypoint target.cluster_name ≡ true)
      × (entry_names es ≡ names eps)
unfolding ensure_routes
ensure_routes-IsServed x w t target eps s s' es e =
    of_result _ (ensure_routes x w t target eps s) es s' (checked.at s) e
  where
    checked : Gives (ensure_routes x w t target eps) (λ es.
        (ctx : GatewayContext) × IsServed x.hex x.mesh t target ctx
        × ((c : Cluster) × IsPlaced t target c)
        × (t.child_client ≡ true)
        × (has_waypoint x.hex x.mesh t.child_waypoint target.cluster_name ≡ true)
        × (entry_names es ≡ names eps))
    checked =
        gives_bind (gives_read (reads-resolve_gateway_context x.hex x.mesh t target)) (λ ctx q.
          gives_last (ensure_mirror_namespace w target.workspace_name _) (λ u.
            gives_bind (gives_read (reads_when t.child_client failure)) (λ u c.
              gives_bind
                (gives_read
                  (reads-ensure_waypoint_ready x.hex x.mesh t.child_waypoint target.cluster_name))
                (λ u p.
                  gives_weaken (gives-route_endpoints x w ctx target false eps)
                    (λ es r. (ctx, q.0, q.1, c, p, r))))))
