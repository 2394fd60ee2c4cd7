-- ===== src/Provider/Context.antt =====
-- How the route provider finds the tenant Gateway and its domain: resolveGatewayContext of
-- internal/controller/workspaces/routing/gatewayapi/provider.go, and what it calls.
use exalsius_operator.Kube.{Labels, Fetched, found}
use exalsius_operator.Mesh.{MeshConfig}
use exalsius_operator.Naming.{waypoint_name}
use exalsius_operator.Provider.{P, infra_gap, failure, give, fault, done, ◌>>=◌, ◌>>◌}
use exalsius_operator.Prelude.{
  ℕ, Bool, Option, none, some, List, [], ◌∷◌, Text, bytes, is_empty, label, ◌==◌, ◌&&◌,
  if◌then◌else◌,
}
use exalsius_operator.Regional.{
  Cluster, find_regional_cluster_deployment, label_kof_regional_cluster_name,
}

pub data ListenerProtocol : Type 0 where
  https_protocol http_protocol tcp_protocol other_protocol : ListenerProtocol

pub record GatewayListener : Type 0 where
  pub name : Text
  pub port : ℕ
  pub protocol : ListenerProtocol
  pub hostname : Option Text

-- `programmed` is what the library reads from the conditions of the status.
pub record Gateway : Type 0 where
  pub listeners : List GatewayListener
  pub programmed : Bool

-- The answer to reading a Gateway; a cluster without the kind counts as missing, as in the source.
pub data GatewayAnswer : Type 0 where
  gateway_found : Gateway → GatewayAnswer
  gateway_missing gateway_error : GatewayAnswer

-- `strings.TrimPrefix(host, "*.")`, none where it has no such prefix
abbrev pub wildcard_domain : Text → Option Text
wildcard_domain (a ∷ b ∷ domain) = if (a == b'*') && (b == b'.') then some domain else none
wildcard_domain _ = none

abbrev pub wildcard_of : GatewayListener → Option Text
wildcard_of l = elim l.hostname [ none ↦ none | some host ↦ wildcard_domain host ]

-- The loop of tenantDomainFromGateway, with the domain of the first HTTP listener so far.
unfoldable pub domain_loop : Text → List GatewayListener → Text × Text
domain_loop http_domain [] = if is_empty http_domain then ([], []) else (http_domain, bytes "http")
domain_loop http_domain (l ∷ ls) =
    let next = domain_loop http_domain ls in
    elim (wildcard_of l) [
      | none ↦ next
      | some domain ↦ elim l.protocol [
        | https_protocol ↦ (domain, bytes "https")
        | http_protocol ↦ if is_empty http_domain then domain_loop domain ls else next
        | _ ↦ next
      ]
    ]

-- tenantDomainFromGateway: the domain and the scheme
unfoldable pub tenant_domain_from_gateway : List GatewayListener → Text × Text
unfolding domain_loop
tenant_domain_from_gateway ls = domain_loop [] ls

-- What the clusters answer to the reads of one call.
pub record Topology : Type 0 where
  pub cluster : Fetched Labels
  pub clusters : Option (List Cluster)
  pub reachable : Text → Bool
  pub gateway : GatewayAnswer
  pub regional_waypoint : Text → GatewayAnswer
  pub child_client : Bool
  pub child_waypoint : Text → GatewayAnswer

pub record GatewayContext : Type 0 where
  pub domain : Text
  pub scheme : Text
  pub gateway : Gateway

-- Which workspace is routed: the names of its ClusterDeployment and of itself.
pub record Target : Type 0 where
  pub cluster_namespace : Text
  pub cluster_name : Text
  pub workspace_name : Text

-- Reading a Gateway that must be there and programmed.
unfoldable pub expect_gateway : GatewayAnswer → P Gateway
expect_gateway (gateway_found gw) = if gw.programmed then give gw else fault infra_gap
expect_gateway gateway_missing = fault infra_gap
expect_gateway gateway_error = fault failure

abbrev pub or_infra_gap : {A : Type 0} → Option A → P A
or_infra_gap none = fault infra_gap
or_infra_gap (some a) = give a

abbrev pub labels_or_fail : Fetched Labels → P Labels
labels_or_fail (found labels) = give labels
labels_or_fail _ = fault failure

module _ (hex : ℕ → Text → Text) (mesh : MeshConfig) where
  -- ensureWaypointReady; `answers` is of the cluster that is asked
  unfoldable pub ensure_waypoint_ready : (Text → GatewayAnswer) → Text → P (Unit {0})
  ensure_waypoint_ready answers cd_name =
      if mesh.waypoint_enabled
      then (expect_gateway (answers (waypoint_name hex cd_name)) >>= λ gw. done)
      else done

  -- resolveGatewayContext
  unfoldable pub resolve_gateway_context : Topology → Target → P GatewayContext
  resolve_gateway_context t target = do
    labels ← labels_or_fail t.cluster
    let regional_name = label label_kof_regional_cluster_name labels
    if is_empty regional_name then fault infra_gap else done
    regional ←
        or_infra_gap
          (find_regional_cluster_deployment t.clusters target.cluster_namespace regional_name)
    if t.reachable regional.name then done else fault failure
    gw ← expect_gateway t.gateway
    let (domain, scheme) = tenant_domain_from_gateway gw.listeners
    if is_empty domain then fault infra_gap else done
    ensure_waypoint_ready t.regional_waypoint target.cluster_name
    give (record { domain = domain; scheme = scheme; gateway = gw })

-- The listeners of a Gateway that is there.
abbrev pub listeners_of : GatewayAnswer → List GatewayListener
listeners_of (gateway_found gw) = gw.listeners
listeners_of _ = []
