-- ===== src/Examples/Endpoints.antt =====
-- The API endpoint of a control plane behind a NodePort.
use exalsius_operator.Prelude.{
  ◌≡◌, refl, none, some, [], ◌∷◌, bytes, text_eq, is_empty, ℕ, Option, ◌++◌, arith, Text, any, ◌==◌,
  if◌then◌else◌, ap, subst,
}
use exalsius_operator.Endpoint.{
  ControlPlane, HostPort, get_service_external_address, extract_cluster_name_from_deployment_name,
  node_port_endpoint, internal_endpoint, determine_api_endpoint, parse_endpoint, node_port_service,
}
use exalsius_operator.Endpoint.Laws.{
  by_node_port, by_load_balancer, by_cluster_ip, IsHost, IsPort, JoinsPlain, JoinsBracketed, Serves,
  parse_endpoint-determine_api_endpoint, extract_cluster_name-append,
}

-- A control plane behind a NodePort, whose CAPI Cluster has published an address.
abbrev control_plane : ControlPlane
control_plane = record {
  service_type = node_port_service;
  cluster_ip = bytes "10.0.0.1";
  ports = record { name = bytes "api"; port = 30443 } ∷ [];
  ingress = [];
}

abbrev published : Option HostPort
published = some (record { host = bytes "a.io"; port = 6443 })

-- net.JoinHostPort, as it is documented.
abbrev join : Text → Text → Text
join h p = if any (λ c. c == b':') h then b'[' ∷ (h ++ (b']' ∷ b':' ∷ p)) else h ++ (b':' ∷ p)

join-JoinsPlain : JoinsPlain join
join-JoinsPlain h p e = ground (arith, e)

join-JoinsBracketed : JoinsBracketed join
join-JoinsBracketed h p e = ground (arith, e)

abbrev digit : ℕ → Text
digit n = b'7' ∷ []

digit-IsPort : (n : ℕ) → IsPort (digit n)
unfolding is_empty
digit-IsPort n = (refl, refl)

abbrev host_of : Option HostPort → Text
host_of none = []
host_of (some e) = e.host

published_hosts : (h : Text) → Serves control_plane published h → IsHost h
unfolding is_empty get_service_external_address
published_hosts h (by_load_balancer e) = ground (arith, e)
published_hosts h (by_node_port t q) = subst IsHost (ap host_of q) (refl, refl)
published_hosts h (by_cluster_ip t) = (refl, refl)

parse_endpoint-determine_api_endpoint_example :
    (h : Text) × (n : ℕ) × (parse_endpoint (bytes "a.io:7") ≡ some (h, digit n))
    × Serves control_plane published h
unfolding determine_api_endpoint internal_endpoint node_port_endpoint get_service_external_address
    is_empty text_eq
parse_endpoint-determine_api_endpoint_example =
    parse_endpoint-determine_api_endpoint join digit control_plane published (bytes "a.io:7")
      join-JoinsPlain join-JoinsBracketed digit-IsPort published_hosts refl

extract_cluster_name-append_example :
    extract_cluster_name_from_deployment_name (bytes "my-colony-c-1") (bytes "my-colony")
    ≡ bytes "c-1"
extract_cluster_name-append_example = extract_cluster_name-append (bytes "my-colony") (bytes "c-1")
