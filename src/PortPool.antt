-- ===== src/PortPool.antt =====
-- The port pool: internal/controller/workspaces/routing/gatewayapi/portpool.go. The TCPRoutes that
-- are attached to the tenant Gateway are the allocation table. An access entry is reduced to the
-- port of its URL, whether it is ready, and which message it has.
pub mod Exclusive
use exalsius_operator.Kube.{Labels}
use exalsius_operator.Mesh.{label_workspace}
use exalsius_operator.Prelude.{
  ℕ, Bool, true, false, List, [], ◌∷◌, Option, none, some, Text, text_eq, not, ◌&&◌, is_empty, any,
  is_nil, ltb, ◌==◌, if◌then◌else◌,
}

pub record Listener : Type 0 where
  pub name : Text
  pub port : ℕ
  pub is_tcp : Bool

pub record PoolListener : Type 0 where
  pub section : Text
  pub port : ℕ

pub record ParentReference : Type 0 where
  pub name : Text
  pub section_name : Option Text
  pub namespace : Option Text

pub record BackendRef : Type 0 where
  pub name : Text
  pub port : Option ℕ

-- A TCPRoute. `rules` has the backends of each rule; `programmed` is what parentsProgrammed reads
-- from the status.
pub record TcpRoute : Type 0 where
  pub name : Text
  pub namespace : Text
  pub labels : Labels
  pub parent_refs : List ParentReference
  pub rules : List (List BackendRef)
  pub programmed : Bool

-- The names of the tenant Gateway.
pub record GatewayName : Type 0 where
  pub name : Text
  pub namespace : Text

unfoldable pub insert_listener : PoolListener → List PoolListener → List PoolListener
insert_listener l [] = l ∷ []
insert_listener l (m ∷ ms) =
    let rest = insert_listener l ms in if ltb l.port m.port then l ∷ m ∷ ms else m ∷ rest

-- tcpListeners: sorted by port. Of equal ports, which a Gateway does not have, any order would do.
unfoldable pub tcp_listeners : List Listener → List PoolListener
unfolding insert_listener
tcp_listeners [] = []
tcp_listeners (l ∷ ls) =
    let rest = tcp_listeners ls in
    if l.is_tcp then insert_listener (record { section = l.name; port = l.port }) rest else rest

-- One parent reference of allocatedSection: the section that it holds, if it names the Gateway.
unfoldable pub section_of : GatewayName → Text → ParentReference → Option Text
section_of gw route_namespace ref = elim ref.section_name [
  | none ↦ none
  | some s ↦
      let ns : Text = elim ref.namespace [ none ↦ route_namespace | some n ↦ n ] in
      if text_eq ref.name gw.name && text_eq ns gw.namespace then some s else none
]

abbrev pub first_section : GatewayName → Text → List ParentReference → Text
first_section gw ns [] = []
first_section gw ns (r ∷ rs) =
    let rest = first_section gw ns rs in elim (section_of gw ns r) [ none ↦ rest | some s ↦ s ]

-- allocatedSection
unfoldable pub allocated_section : GatewayName → TcpRoute → Text
allocated_section gw route = first_section gw route.namespace route.parent_refs

-- allocatedSections, as a test on sections
unfoldable pub allocated_sections : GatewayName → List TcpRoute → Text → Bool
allocated_sections gw routes s =
    not (is_empty s) && any (λ r. text_eq (allocated_section gw r) s) routes

-- The first listener of the pool that is not allocated.
unfoldable pub first_free : (Text → Bool) → List PoolListener → Option PoolListener
first_free allocated [] = none
first_free allocated (l ∷ ls) =
    let rest = first_free allocated ls in if allocated l.section then rest else some l

-- poolPort
unfoldable pub pool_port : List PoolListener → Text → Option ℕ
pool_port [] section = none
pool_port (l ∷ ls) section =
    let rest = pool_port ls section in if text_eq l.section section then some l.port else rest

-- equalPortPtr
unfoldable pub equal_port_ptr : Option ℕ → Option ℕ → Bool
equal_port_ptr none none = true
equal_port_ptr (some a) (some b) = a == b
equal_port_ptr _ _ = false

-- routeRulesEqual, for the one backend that the source asks for
unfoldable pub route_rules_equal : List (List BackendRef) → BackendRef → Bool
unfolding equal_port_ptr
route_rules_equal ((got ∷ []) ∷ []) want =
    text_eq got.name want.name && equal_port_ptr got.port want.port
route_rules_equal _ want = false

pub data Notice : Type 0 where
  no_notice no_listeners no_route_support pool_exhausted not_attached listener_gone : Notice
  awaiting_acceptance : Notice

pub record AccessEntry : Type 0 where
  pub url_port : Option ℕ
  pub ready : Bool
  pub notice : Notice

-- What the regional cluster answers to reading a TCPRoute.
pub data RouteAnswer : Type 0 where
  route_found : TcpRoute → RouteAnswer
  route_missing route_kind_missing route_error : RouteAnswer

-- The writes on the regional cluster.
pub data RouteWrite : Type 0 where
  create_route update_route : TcpRoute → RouteWrite

-- An access entry or the error of the provider, and the write that was asked for.
pub record Ensured : Type 0 where
  pub entry : Option AccessEntry
  pub write : Option RouteWrite

abbrev pub noticed : Notice → Ensured
noticed n = record {
  entry = some (record { url_port = none; ready = false; notice = n });
  write = none;
}

-- The route of a new endpoint on the chosen listener.
unfoldable pub new_route : GatewayName → Text → Text → Text → BackendRef → PoolListener → TcpRoute
new_route gw ns_name workspace_name ep_name backend chosen = record {
  name = ep_name;
  namespace = ns_name;
  labels = (label_workspace, workspace_name) ∷ [];
  parent_refs =
      record { name = gw.name; section_name = some chosen.section; namespace = some gw.namespace }
      ∷ [];
  rules = (backend ∷ []) ∷ [];
  programmed = false;
}

-- The create of a new endpoint on the listener that was found. A route that exists by the time of
-- the write counts as written.
abbrev pub create_on :
    GatewayName → Text → Text → Text → BackendRef → Bool → Option PoolListener → Ensured
create_on gw ns_name workspace_name ep_name backend written none = noticed pool_exhausted
create_on gw ns_name workspace_name ep_name backend written (some chosen) = record {
  entry =
      if written
      then some
          (record { url_port = some chosen.port; ready = false; notice = awaiting_acceptance })
      else none;
  write = some (create_route (new_route gw ns_name workspace_name ep_name backend chosen));
}

-- A new endpoint: the listing of all routes may fail.
unfoldable pub ensure_new :
    GatewayName
    → List PoolListener
    → Text
    → Text
    → Text
    → BackendRef
    → Option (List TcpRoute)
    → Bool
    → Ensured
ensure_new gw pool ns_name workspace_name ep_name backend none written = record {
  entry = none;
  write = none;
}
ensure_new gw pool ns_name workspace_name ep_name backend (some routes) written =
    create_on gw ns_name workspace_name ep_name backend written
      (first_free (allocated_sections gw routes) pool)

-- The entry of a route that is there.
abbrev pub existing_entry : ℕ → TcpRoute → AccessEntry
existing_entry port route = record {
  url_port = some port;
  ready = route.programmed;
  notice = if route.programmed then no_notice else awaiting_acceptance;
}

-- An endpoint with a route: its listener is kept, and its rules are brought up to date.
unfoldable pub ensure_existing :
    GatewayName → List PoolListener → BackendRef → TcpRoute → Bool → Ensured
ensure_existing gw pool backend route written =
    let section = allocated_section gw route in
    if is_empty section then noticed not_attached else elim (pool_port pool section) [
      | none ↦ noticed listener_gone
      | some port ↦
          if route_rules_equal route.rules backend
          then record { entry = some (existing_entry port route); write = none }
          else record {
            entry = if written then some (existing_entry port route) else none;
            write = some (update_route (record route { rules = (backend ∷ []) ∷ [] }));
          }
    ]

-- ensureTCPRoute
unfoldable pub ensure_tcp_route :
    GatewayName
    → List Listener
    → Text
    → Text
    → Text
    → BackendRef
    → RouteAnswer
    → Option (List TcpRoute)
    → Bool
    → Ensured
ensure_tcp_route gw listeners ns_name workspace_name ep_name backend answer routes written =
    let pool = tcp_listeners listeners in
    if is_nil pool then noticed no_listeners else elim answer [
      | route_kind_missing ↦ noticed no_route_support
      | route_error ↦ record { entry = none; write = none }
      | route_missing ↦ ensure_new gw pool ns_name workspace_name ep_name backend routes written
      | route_found route ↦ ensure_existing gw pool backend route written
    ]
