-- ===== src/Endpoint.antt =====
-- The API endpoint of a hosted control plane: internal/controller/infra/common/service_discovery.go,
-- and the ConfigMap that carries it to the child cluster
-- (internal/controller/infra/cilium/api_endpoint_configmap.go). `join` stands for net.JoinHostPort and
-- `itoa` for strconv.Itoa.
pub mod Laws
use exalsius_operator.Kube.{Fetched, found, not_found, get_failed}
use exalsius_operator.Prelude.{
  ℕ, Bool, true, false, not, ◌&&◌, ◌||◌, Option, none, some, List, [], ◌∷◌, ◌++◌, Text, bytes,
  text_eq, is_empty, any, has_prefix, insert, label, ◌==◌, if◌then◌else◌,
}

pub record EndpointPort : Type 0 where
  pub name : Text
  pub port : ℕ

pub data ServiceType : Type 0 where
  cluster_ip_service node_port_service load_balancer_service : ServiceType

pub record Ingress : Type 0 where
  pub hostname : Text
  pub ip : Text

-- The Service of the control plane.
pub record ControlPlane : Type 0 where
  pub service_type : ServiceType
  pub cluster_ip : Text
  pub ports : List EndpointPort
  pub ingress : List Ingress

-- spec.controlPlaneEndpoint of the CAPI Cluster
pub record HostPort : Type 0 where
  pub host : Text
  pub port : ℕ

abbrev pub has_no_cluster_ip : ControlPlane → Bool
has_no_cluster_ip s = is_empty s.cluster_ip || text_eq s.cluster_ip (bytes "None")

abbrev is_api_name : EndpointPort → Bool
is_api_name p = text_eq p.name (bytes "api") || text_eq p.name (bytes "kube-apiserver")

abbrev is_api_number : EndpointPort → Bool
is_api_number p = (p.port == 30443) || (p.port == 6443)

abbrev is_konnectivity : EndpointPort → Bool
is_konnectivity p = text_eq p.name (bytes "konnectivity") || ((p.port == 30132) || (p.port == 8132))

-- ValidateControlPlanePorts
unfoldable pub validate_control_plane_ports : List EndpointPort → Bool
validate_control_plane_ports ps =
    any (λ p. is_api_name p || is_api_number p) ps && any is_konnectivity ps

-- DiscoverControlPlaneService, of the listing by its labels: the first Service, if it is usable
unfoldable pub discover_control_plane_service : Option (List ControlPlane) → Option ControlPlane
unfolding validate_control_plane_ports
discover_control_plane_service none = none
discover_control_plane_service (some []) = none
discover_control_plane_service (some (s ∷ ss)) =
    if has_no_cluster_ip s
    then none
    else if validate_control_plane_ports s.ports
    then some s
    else none

unfoldable pub first_port : (EndpointPort → Bool) → List EndpointPort → Option ℕ
first_port p [] = none
first_port p (q ∷ qs) = let rest = first_port p qs in if p q then some q.port else rest

-- GetAPIServerPort
unfoldable pub get_api_server_port : List EndpointPort → ℕ
unfolding first_port
get_api_server_port ps = elim (first_port is_api_name ps) [
  | some n ↦ n
  | none ↦ elim (first_port is_api_number ps) [ some n ↦ n | none ↦ 30443 ]
]

-- GetServiceExternalAddress
unfoldable pub ingress_address : List Ingress → Option Text
ingress_address [] = none
ingress_address (i ∷ is) =
    if is_empty i.hostname then if is_empty i.ip then none else some i.ip else some i.hostname

unfoldable pub get_service_external_address : ControlPlane → Option Text
unfolding ingress_address
get_service_external_address s = elim s.service_type [
  | load_balancer_service ↦ ingress_address s.ingress
  | _ ↦ none
]

-- ExtractClusterNameFromDeploymentName: `strip` takes the prefix off, if something is left.
unfoldable pub strip : Text → Text → Text
strip [] s = s
strip (p ∷ ps) [] = []
strip (p ∷ ps) (c ∷ s) = let rest = strip ps s in if c == p then rest else []

unfoldable pub extract_cluster_name_from_deployment_name : Text → Text → Text
unfolding strip
extract_cluster_name_from_deployment_name deployment_name colony_name =
    strip (colony_name ++ bytes "-") deployment_name

-- The result of DetermineAPIEndpoint; `endpoint_not_ready` is ErrControlPlaneEndpointNotReady.
pub data ApiEndpoint : Type 0 where
  no_cluster_ip endpoint_not_ready : ApiEndpoint
  api_endpoint : Text → ApiEndpoint

module _ (join : Text → Text → Text) (itoa : ℕ → Text) where
  -- joinHostPort
  abbrev pub join_host_port : Text → ℕ → Text
  join_host_port host port = join host (itoa port)

  unfoldable pub node_port_endpoint : Option HostPort → ℕ → ApiEndpoint
  node_port_endpoint none api_port = endpoint_not_ready
  node_port_endpoint (some e) api_port =
      if is_empty e.host
      then endpoint_not_ready
      else api_endpoint (join_host_port e.host (if e.port == 0 then api_port else e.port))

  unfoldable pub internal_endpoint : ControlPlane → Option HostPort → ℕ → ApiEndpoint
  internal_endpoint s capi api_port = elim s.service_type [
    | node_port_service ↦ node_port_endpoint capi api_port
    | _ ↦ api_endpoint (join_host_port s.cluster_ip api_port)
  ]

  -- DetermineAPIEndpoint
  unfoldable pub determine_api_endpoint : ControlPlane → Option HostPort → ApiEndpoint
  determine_api_endpoint s capi =
      if has_no_cluster_ip s then no_cluster_ip else elim (get_service_external_address s) [
        | some address ↦ api_endpoint (join_host_port address (get_api_server_port s.ports))
        | none ↦ internal_endpoint s capi (get_api_server_port s.ports)
      ]

-- `strings.Split(s, c)`
abbrev onto_first : ℕ → List Text → List Text
onto_first a [] = (a ∷ []) ∷ []
onto_first a (t ∷ ts) = (a ∷ t) ∷ ts

unfoldable pub split_on : ℕ → Text → List Text
split_on c [] = [] ∷ []
split_on c (a ∷ s) = let rest = split_on c s in if a == c then [] ∷ rest else onto_first a rest

-- What stands before and behind the first `c`, as `strings.Index` finds it.
unfoldable pub cut_at : ℕ → Text → Option (Text × Text)
cut_at c [] = none
cut_at c (a ∷ s) =
    let rest = cut_at c s in
    if a == c then some ([], s) else elim rest [ none ↦ none | some (h, t) ↦ some (a ∷ h, t) ]

abbrev pub of_parts : List Text → Option (Text × Text)
of_parts (host ∷ port ∷ []) = if is_empty host || is_empty port then none else some (host, port)
of_parts _ = none

abbrev pub behind_bracket : Text → Text → Option (Text × Text)
behind_bracket host [] = none
behind_bracket host (c ∷ port) = if c == b':' then some (host, port) else none

abbrev pub of_bracket : Option (Text × Text) → Option (Text × Text)
of_bracket none = none
of_bracket (some (host, rest)) = behind_bracket host rest

-- parseEndpoint: the host and the port
unfoldable pub parse_endpoint : Text → Option (Text × Text)
unfolding split_on cut_at
parse_endpoint [] = of_parts (split_on b':' [])
parse_endpoint (c ∷ s) =
    if c == b'[' then of_bracket (cut_at b']' s) else of_parts (split_on b':' (c ∷ s))

-- What EnsureAPIEndpointConfigMap ends with. `nil_map_write` is the write into the nil map of a ConfigMap
-- without data.
pub data ConfigMapOutcome : Type 0 where
  config_map_error nil_map_write unchanged : ConfigMapOutcome
  written : List (Text × Text) → ConfigMapOutcome

abbrev write_config_map : Bool → List (Text × Text) → ConfigMapOutcome
write_config_map ok data_of = if ok then written data_of else config_map_error

abbrev or_empty : Option (List (Text × Text)) → List (Text × Text)
or_empty none = []
or_empty (some m) = m

abbrev put_endpoint : Bool → Text → Text → Option (List (Text × Text)) → ConfigMapOutcome
put_endpoint ok host port none = nil_map_write
put_endpoint ok host port (some m) =
    write_config_map ok (insert (bytes "port") port (insert (bytes "host") host m))

-- The ConfigMap as it is read on the child cluster; its data may be nil.
unfoldable pub on_config_map :
    Bool → Text → Text → Fetched (Option (List (Text × Text))) → ConfigMapOutcome
on_config_map ok host port (found m) =
    if text_eq (label (bytes "host") (or_empty m)) host
      && text_eq (label (bytes "port") (or_empty m)) port
    then unchanged
    else put_endpoint ok host port m
on_config_map ok host port not_found =
    write_config_map ok ((bytes "host", host) ∷ (bytes "port", port) ∷ [])
on_config_map ok host port get_failed = config_map_error

abbrev on_parsed :
    Bool → Fetched (Option (List (Text × Text))) → Bool → Option (Text × Text) → ConfigMapOutcome
on_parsed child_client config_map ok none = config_map_error
on_parsed child_client config_map ok (some (host, port)) =
    if child_client then on_config_map ok host port config_map else config_map_error

-- EnsureAPIEndpointConfigMap, given whether there is a client of the child cluster, the ConfigMap, and
-- whether the write succeeds
unfoldable pub ensure_api_endpoint_config_map :
    Text → Bool → Fetched (Option (List (Text × Text))) → Bool → ConfigMapOutcome
ensure_api_endpoint_config_map endpoint child_client config_map ok =
    on_parsed child_client config_map ok (parse_endpoint endpoint)
