-- ===== src/Provider/Routes.antt =====
-- The calls of the Gateway API provider (provider.go): EnsureRoutes with its loop over the access
-- endpoints. A message of an entry is reduced to which one it is.
use exalsius_operator.PortPool
use exalsius_operator.Mesh.{MeshConfig, Created, created, create_failed, mirror_namespace_labels}
use exalsius_operator.Naming.{endpoint_service_name, workspace_namespace_name}
use exalsius_operator.PortPool.{
  GatewayName, Listener, TcpRoute, Notice, no_notice, awaiting_acceptance, RouteWrite, create_route,
  update_route, RouteAnswer, route_found, route_missing, route_kind_missing, route_error, Ensured,
  ensure_tcp_route,
}
use exalsius_operator.Prelude.{
  ℕ, Bool, true, false, ◌&&◌, ◌||◌, Option, none, some, List, [], ◌∷◌, ◌++◌, Text, bytes, text_eq,
  length, leb, if◌then◌else◌,
}
use exalsius_operator.Provider.{
  Store, Replies, ServicePort, HttpRouteSpec, P, readable, kind_missing, unreadable, failure, give,
  fault, done, change, store_of, ◌>>=◌, ◌>>◌,
}
use exalsius_operator.Provider.Context.{
  GatewayListener, GatewayContext, Topology, Target, ListenerProtocol, tcp_protocol,
  ensure_waypoint_ready, resolve_gateway_context,
}
use exalsius_operator.Provider.Objects.{
  Protocol, AccessEndpoint, http_endpoint, tcp_endpoint, ssh_endpoint, ensure_mirror_namespace,
  ensure_mirror_service, mark_service_global, ensure_http_route,
}

pub data EntryMessage : Type 0 where
  service_name_too_long hostname_too_long : EntryMessage
  pool_message : Notice → EntryMessage

pub record EndpointAccess : Type 0 where
  pub name : Text
  pub protocol : Protocol
  pub url : Text
  pub ready : Bool
  pub message : EntryMessage

abbrev pub max_hostname_label : ℕ
max_hostname_label = 63

-- What one provider is configured with, and what the library functions give: the digits of a port,
-- the comparison of ports and of specs, the hexadecimal digits of a hash.
pub record Setting : Type 0 where
  pub gateway : GatewayName
  pub mesh : MeshConfig
  pub hex : ℕ → Text → Text
  pub decimal : ℕ → Text
  pub same_ports : List ServicePort → List ServicePort → Bool
  pub same_spec : HttpRouteSpec → HttpRouteSpec → Bool

abbrev is_tcp_protocol : ListenerProtocol → Bool
is_tcp_protocol tcp_protocol = true
is_tcp_protocol _ = false

-- The listeners as the port pool reads them.
abbrev pub pool_listeners : List GatewayListener → List Listener
pool_listeners [] = []
pool_listeners (l ∷ ls) =
    record { name = l.name; port = l.port; is_tcp = is_tcp_protocol l.protocol } ∷ pool_listeners ls

abbrev pub is_route : Text → Text → TcpRoute → Bool
is_route name ns r = text_eq r.name name && text_eq r.namespace ns

abbrev pub find_tcp_route : Text → Text → List TcpRoute → RouteAnswer
find_tcp_route name ns [] = route_missing
find_tcp_route name ns (r ∷ rs) =
    let rest = find_tcp_route name ns rs in if is_route name ns r then route_found r else rest

abbrev pub put_tcp_route : TcpRoute → List TcpRoute → List TcpRoute
put_tcp_route x [] = []
put_tcp_route x (r ∷ rs) =
    let rest = put_tcp_route x rs in if is_route x.name x.namespace r then x ∷ rs else r ∷ rest

-- poolURL
unfoldable pub pool_url : (ℕ → Text) → Protocol → Text → ℕ → Text
pool_url decimal protocol domain port =
    let scheme : Text = elim protocol [
      | http_endpoint ↦ bytes "http"
      | tcp_endpoint ↦ bytes "tcp"
      | ssh_endpoint ↦ bytes "ssh"
    ] in
    scheme ++ (bytes "://" ++ (domain ++ (bytes ":" ++ decimal port)))

abbrev is_written : Created → Bool
is_written create_failed = false
is_written _ = true

abbrev pub was_created : Created → Bool
was_created created = true
was_created _ = false

-- The label of an HTTP endpoint: the first one has the bare name of the workspace.
unfoldable pub hostname_label : Text → Bool → Text → Text
hostname_label workspace_name primary_assigned ep_name =
    if primary_assigned then workspace_name ++ (bytes "-" ++ ep_name) else workspace_name

abbrev pub is_http : Protocol → Bool
is_http http_endpoint = true
is_http _ = false

-- Whether an endpoint takes the bare name: an HTTP one whose Service name is not too long.
unfoldable pub takes_primary : Target → AccessEndpoint → Bool
takes_primary target ep =
    is_http ep.protocol
    && leb
        (length
          (endpoint_service_name target.cluster_name target.workspace_name ep.service_name ep.name))
        max_hostname_label

module _ (w : Replies) where
  abbrev pub tcp_answer : Text → Text → Store → RouteAnswer
  tcp_answer ep_name ns_name s = elim (w.tcp_read ep_name) [
    | readable ↦ find_tcp_route ep_name ns_name s.tcp_routes
    | kind_missing ↦ route_kind_missing
    | unreadable ↦ route_error
  ]

  -- Whether the write that would follow succeeds.
  abbrev pub tcp_written : Text → RouteAnswer → Bool
  tcp_written ep_name (route_found r) = w.tcp_update ep_name
  tcp_written ep_name _ = is_written (w.tcp_creation ep_name)

  abbrev pub apply_write : Text → Option RouteWrite → List TcpRoute → List TcpRoute
  apply_write ep_name none rs = rs
  apply_write ep_name (some (create_route r)) rs =
      if was_created (w.tcp_creation ep_name) then r ∷ rs else rs
  apply_write ep_name (some (update_route r)) rs =
      if w.tcp_update ep_name then put_tcp_route r rs else rs

module _ (x : Setting) (w : Replies) where
  -- The entry of ensureTCPRoute, in the words of this call.
  abbrev pub tcp_entry : Text → AccessEndpoint → Option PortPool.AccessEntry → P EndpointAccess
  tcp_entry domain ep none = fault failure
  tcp_entry domain ep (some e) = give (record {
    name = ep.name;
    protocol = ep.protocol;
    url = elim e.url_port [ none ↦ [] | some port ↦ pool_url x.decimal ep.protocol domain port ];
    ready = e.ready;
    message = pool_message e.notice;
  })

  -- ensureTCPRoute on the state of the regional cluster
  unfoldable pub write_tcp_route :
      GatewayContext → Text → Text → Text → AccessEndpoint → P EndpointAccess
  write_tcp_route ctx ns_name svc_name workspace_name ep = do
    s ← store_of
    let answer = tcp_answer w ep.name ns_name s
    let e =
        ensure_tcp_route x.gateway (pool_listeners ctx.gateway.listeners) ns_name workspace_name
          ep.name (record { name = svc_name; port = some ep.port }) answer
          (if w.tcp_listing ep.name then some s.tcp_routes else none) (tcp_written w ep.name answer)
    change (λ t. record t { tcp_routes = apply_write w ep.name e.write t.tcp_routes })
    tcp_entry ctx.domain ep e.entry

  abbrev refused : AccessEndpoint → EntryMessage → EndpointAccess
  refused ep m = record {
    name = ep.name;
    protocol = ep.protocol;
    url = [];
    ready = false;
    message = m;
  }

  -- An HTTP endpoint under its hostname label.
  unfoldable pub route_http :
      GatewayContext → Target → Text → Text → AccessEndpoint → P EndpointAccess
  route_http ctx target svc_name hostname_label ep =
      if leb (length hostname_label) max_hostname_label
      then (do
        let hostname = hostname_label ++ (bytes "." ++ ctx.domain)
        ensure_mirror_service w x.same_ports svc_name target.workspace_name ep
        mark_service_global w svc_name
        ready ← ensure_http_route w x.same_spec x.gateway hostname svc_name ep
        give (record {
          name = ep.name;
          protocol = ep.protocol;
          url = ctx.scheme ++ (bytes "://" ++ hostname);
          ready = ready;
          message = pool_message (if ready then no_notice else awaiting_acceptance);
        }))
      else give (refused ep hostname_too_long)

  -- An SSH or TCP endpoint.
  unfoldable pub route_tcp : GatewayContext → Target → Text → AccessEndpoint → P EndpointAccess
  route_tcp ctx target svc_name ep = do
    ensure_mirror_service w x.same_ports svc_name target.workspace_name ep
    mark_service_global w svc_name
    write_tcp_route ctx (workspace_namespace_name target.workspace_name) svc_name
        target.workspace_name ep

  -- One turn of the loop.
  unfoldable pub route_endpoint : GatewayContext → Target → Bool → AccessEndpoint → P EndpointAccess
  route_endpoint ctx target primary_assigned ep =
      let svc_name =
        endpoint_service_name target.cluster_name target.workspace_name ep.service_name ep.name in
      if leb (length svc_name) max_hostname_label
      then (if is_http ep.protocol
          then route_http ctx target svc_name
              (hostname_label target.workspace_name primary_assigned ep.name) ep
          else route_tcp ctx target svc_name ep)
      else give (refused ep service_name_too_long)

  -- The loop over the endpoints.
  unfoldable pub route_endpoints :
      GatewayContext → Target → Bool → List AccessEndpoint → P (List EndpointAccess)
  route_endpoints ctx target primary_assigned [] = give []
  route_endpoints ctx target primary_assigned (ep ∷ eps) = do
    entry ← route_endpoint ctx target primary_assigned ep
    entries ← route_endpoints ctx target (primary_assigned || takes_primary target ep) eps
    give (entry ∷ entries)

  -- EnsureRoutes
  unfoldable pub ensure_routes : Topology → Target → List AccessEndpoint → P (List EndpointAccess)
  ensure_routes t target eps = do
    ctx ← resolve_gateway_context x.hex x.mesh t target
    ensure_mirror_namespace w target.workspace_name (mirror_namespace_labels x.mesh)
    if t.child_client then done else fault failure
    ensure_waypoint_ready x.hex x.mesh t.child_waypoint target.cluster_name
    route_endpoints ctx target false eps
