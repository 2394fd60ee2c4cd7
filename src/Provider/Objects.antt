-- ===== src/Provider/Objects.antt =====
-- The objects of a workspace that the Gateway API provider writes (provider.go): the mirror namespace
-- and Services on the regional cluster, the label of the Service on the child cluster, and the
-- HTTPRoutes. Each one is read, created where it is missing, and brought up to date.
use exalsius_operator.Kube.{Labels}
use exalsius_operator.Mesh.{Namespace, apply_missing_labels, label_workspace}
use exalsius_operator.PortPool.{GatewayName}
use exalsius_operator.Prelude.{
  ℕ, Bool, true, false, not, ◌&&◌, ◌||◌, Option, none, some, List, [], ◌∷◌, Text, bytes, text_eq,
  lookup, insert, merge, label, if◌then◌else◌,
}
use exalsius_operator.Provider.{
  Store, Service, ServicePort, HttpRoute, HttpRouteSpec, ParentStatus, Replies, P, failure, give,
  fault, done, update_by, create_by, store_of, ◌>>=◌, ◌>>◌,
}

pub data Protocol : Type 0 where
  http_endpoint tcp_endpoint ssh_endpoint : Protocol

pub record AccessEndpoint : Type 0 where
  pub name : Text
  pub protocol : Protocol
  pub port : ℕ
  pub service_name : Text

abbrev pub label_istio_global : Text
label_istio_global = bytes "istio.io/global"

abbrev pub label_istio_global_value : Text
label_istio_global_value = bytes "true"

-- The loop over the parent statuses of parentsProgrammed: the first one of the Gateway decides.
unfoldable pub parents_programmed : GatewayName → List ParentStatus → Bool
parents_programmed gw [] = false
parents_programmed gw (p ∷ ps) =
    let rest = parents_programmed gw ps in
    let in_namespace : Bool = elim p.namespace [ none ↦ true | some n ↦ text_eq n gw.namespace ] in
    if text_eq p.name gw.name && in_namespace then p.accepted && p.resolved_refs else rest

abbrev with_mirror : Labels → Store → Store
with_mirror labels s = record s { mirror = some (record { labels = labels; deleting = false }) }

-- The HTTPRoute that an endpoint shall have.
unfoldable pub desired_spec : GatewayName → Text → Text → ℕ → HttpRouteSpec
desired_spec gw hostname svc_name port = record {
  parent_refs = record { name = gw.name; section_name = none; namespace = some gw.namespace } ∷ [];
  hostnames = hostname ∷ [];
  rules = ((record { name = svc_name; port = some port }) ∷ []) ∷ [];
}

module _ (w : Replies) where
  -- ensureMirrorNamespace: the labels of a namespace that is there
  unfoldable pub heal_mirror : Labels → Option Namespace → P (Unit {0})
  heal_mirror desired none = create_by w.namespace_creation (with_mirror desired)
  heal_mirror desired (some ns) =
      if ns.deleting
      then fault failure
      else (let (labels, changed) = apply_missing_labels ns.labels desired in
          if changed then update_by w.namespace_update (with_mirror labels) else done)

  unfoldable pub ensure_mirror_namespace : Text → Labels → P (Unit {0})
  ensure_mirror_namespace workspace_name mesh_labels = do
    if w.namespace_read then done else fault failure
    s ← store_of
    heal_mirror (merge ((label_workspace, workspace_name) ∷ []) mesh_labels) s.mirror

  -- markServiceGlobal, on the labels of the Service on the child cluster
  unfoldable pub mark_labels : Text → Option Labels → P (Unit {0})
  mark_labels svc_name none = done
  mark_labels svc_name (some labels) =
      if text_eq (label label_istio_global labels) label_istio_global_value
      then done
      else update_by (w.child_update svc_name) (λ s. record s {
        child_services =
            insert svc_name (insert label_istio_global label_istio_global_value labels)
              s.child_services;
      })

  unfoldable pub mark_service_global : Text → P (Unit {0})
  mark_service_global svc_name = do
    if w.child_read svc_name then done else fault failure
    s ← store_of
    mark_labels svc_name (lookup svc_name s.child_services)

abbrev put_service : Text → Service → Store → Store
put_service name svc s = record s { services = insert name svc s.services }

abbrev put_http_route : Text → HttpRoute → Store → Store
put_http_route name route s = record s { http_routes = insert name route s.http_routes }

abbrev desired_labels : Text → Labels
desired_labels workspace_name =
    (label_workspace, workspace_name) ∷ (label_istio_global, label_istio_global_value) ∷ []

-- `same_ports` stands for `Semantic.DeepDerivative` of the desired ports.
module _ (w : Replies) (same_ports : List ServicePort → List ServicePort → Bool) where
  unfoldable pub heal_service : Text → Text → List ServicePort → Option Service → P (Unit {0})
  heal_service svc_name workspace_name ports none =
      create_by (w.service_creation svc_name)
        (put_service svc_name (record { labels = desired_labels workspace_name; ports = ports }))
  heal_service svc_name workspace_name ports (some svc) =
      let (labels, changed) = apply_missing_labels svc.labels (desired_labels workspace_name) in
      let same = same_ports ports svc.ports in
      if changed || not same
      then update_by (w.service_update svc_name) (
          put_service svc_name
            (record { labels = labels; ports = if same then svc.ports else ports }))
      else done

  -- ensureMirrorService
  unfoldable pub ensure_mirror_service : Text → Text → AccessEndpoint → P (Unit {0})
  ensure_mirror_service svc_name workspace_name ep = do
    if w.service_read svc_name then done else fault failure
    s ← store_of
    heal_service svc_name workspace_name (record { name = ep.name; port = ep.port } ∷ [])
        (lookup svc_name s.services)

-- `same_spec` stands for `Semantic.DeepEqual` of two specs.
module _ (w : Replies) (same_spec : HttpRouteSpec → HttpRouteSpec → Bool) (gw : GatewayName) where
  unfoldable pub heal_http_route : Text → HttpRouteSpec → Option HttpRoute → P Bool
  heal_http_route ep_name spec none = do
    create_by (w.http_creation ep_name)
        (put_http_route ep_name (record { spec = spec; parents = [] }))
    give false
  heal_http_route ep_name spec (some route) = do
    if same_spec route.spec spec
        then done
        else update_by (w.http_update ep_name)
            (put_http_route ep_name (record route { spec = spec }))
    give (parents_programmed gw route.parents)

  -- ensureHTTPRoute: whether the route is programmed
  unfoldable pub ensure_http_route : Text → Text → AccessEndpoint → P Bool
  ensure_http_route hostname svc_name ep = do
    if w.http_read ep.name then done else fault failure
    s ← store_of
    heal_http_route ep.name (desired_spec gw hostname svc_name ep.port)
        (lookup ep.name s.http_routes)
