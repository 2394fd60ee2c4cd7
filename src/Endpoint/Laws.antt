-- ===== src/Endpoint/Laws.antt =====
-- The endpoint that DetermineAPIEndpoint chooses, as parseEndpoint reads it, and the names of
-- ClusterDeployments.
use exalsius_operator.Endpoint.{
  ControlPlane, HostPort, api_endpoint, node_port_service, get_service_external_address,
  determine_api_endpoint, internal_endpoint, node_port_endpoint, parse_endpoint, split_on, cut_at,
  strip, extract_cluster_name_from_deployment_name, of_parts, of_bracket, ServiceType,
  has_no_cluster_ip, get_api_server_port, load_balancer_service, cluster_ip_service,
}
use exalsius_operator.Prelude.{
  ℕ, ◌≡◌, refl, ap, ◌∙◌, ◌≢◌, inl, inr, Bool, true, false, ◌||◌, Option, some, [], ◌∷◌, ◌++◌, arith,
  Text, bytes, is_empty, any, ◌==◌, Bool-cases, none, if◌then◌else◌, Option-cases,
}

abbrev is_colon : ℕ → Bool
is_colon c = c == b':'

abbrev is_bracket : ℕ → Bool
is_bracket c = (c == b'[') || (c == b']')

-- A host name or address: not empty, and without brackets.
abbrev pub IsHost : Text → Type 0
IsHost h = (is_empty h ≡ false) × (any is_bracket h ≡ false)

abbrev pub IsPort : Text → Type 0
IsPort p = (is_empty p ≡ false) × (any is_colon p ≡ false)

-- What net.JoinHostPort documents: a host with a colon stands in brackets.
abbrev pub JoinsPlain : (Text → Text → Text) → Type 0
JoinsPlain join = (h p : Text) → any is_colon h ≡ false → join h p ≡ h ++ (b':' ∷ p)

abbrev pub JoinsBracketed : (Text → Text → Text) → Type 0
JoinsBracketed join =
    (h p : Text) → any is_colon h ≡ true → join h p ≡ b'[' ∷ (h ++ (b']' ∷ b':' ∷ p))

split_on-none : (t : Text) → any is_colon t ≡ false → split_on b':' t ≡ t ∷ []
unfolding split_on
split_on-none [] h = refl
split_on-none (c ∷ t) h = ground (arith, split_on-none t)

split_on-append :
    (h t : Text) → any is_colon h ≡ false → split_on b':' (h ++ (b':' ∷ t)) ≡ h ∷ split_on b':' t
unfolding split_on
split_on-append [] t e = refl
split_on-append (c ∷ h) t e = ground (arith, split_on-append h t)

cut_at-append :
    (h t : Text) → any is_bracket h ≡ false → cut_at b']' (h ++ (b']' ∷ t)) ≡ some (h, t)
unfolding cut_at
cut_at-append [] t e = refl
cut_at-append (c ∷ h) t e = ground (arith, cut_at-append h t)

parse_endpoint_plain :
    (h p : Text)
    → IsHost h
    → any is_colon h ≡ false
    → IsPort p
    → parse_endpoint (h ++ (b':' ∷ p)) ≡ some (h, p)
unfolding parse_endpoint is_empty
parse_endpoint_plain [] p hh hc hp = ground (arith, hh.0)
parse_endpoint_plain (c ∷ h) p hh hc hp =
    let e = split_on-append (c ∷ h) p hc ∙ ap (λ ts. (c ∷ h) ∷ ts) (split_on-none p hp.1) in
    ground (arith, hh.1, hp.0, ap of_parts e)

parse_endpoint_bracketed :
    (h p : Text) → IsHost h → parse_endpoint (b'[' ∷ (h ++ (b']' ∷ b':' ∷ p))) ≡ some (h, p)
unfolding parse_endpoint
parse_endpoint_bracketed h p hh = ap of_bracket (cut_at-append h (b':' ∷ p) hh.1)

parse_endpoint-join :
    (join : Text → Text → Text) (h p : Text)
    → JoinsPlain join
    → JoinsBracketed join
    → IsHost h
    → IsPort p
    → parse_endpoint (join h p) ≡ some (h, p)
parse_endpoint-join join h p plain bracketed hh hp = elim (Bool-cases (any is_colon h)) [
  | inl e ↦ ap parse_endpoint (bracketed h p e) ∙ parse_endpoint_bracketed h p hh
  | inr e ↦ ap parse_endpoint (plain h p e) ∙ parse_endpoint_plain h p hh e hp
]

-- The host that a control plane is to be dialled at: its external address; or, for a NodePort, what
-- the CAPI Cluster has published; or else its ClusterIP, which a NodePort never is.
pub data Serves (s : ControlPlane) (capi : Option HostPort) : Text → Type 0 where
  by_load_balancer : {h : Text} → get_service_external_address s ≡ some h → Serves s capi h
  by_node_port :
      {e : HostPort} → s.service_type ≡ node_port_service → capi ≡ some e → Serves s capi e.host
  by_cluster_ip : s.service_type ≢ node_port_service → Serves s capi s.cluster_ip

module _ (join : Text → Text → Text) (itoa : ℕ → Text) (s : ControlPlane) (capi : Option HostPort)
    (e : Text) where
  -- The endpoint is that of a host that serves.
  abbrev IsOfHost : Type 0
  IsOfHost = (h : Text) × (n : ℕ) × (e ≡ join h (itoa n)) × Serves s capi h

  node_port_endpoint-IsOfHost :
      (o : Option HostPort) (n : ℕ)
      → s.service_type ≡ node_port_service
      → capi ≡ o
      → node_port_endpoint join itoa o n ≡ api_endpoint e
      → IsOfHost
  unfolding node_port_endpoint
  node_port_endpoint-IsOfHost none n t q k = ground (arith, k)
  node_port_endpoint-IsOfHost (some d) n t q k = elim (Bool-cases (is_empty d.host)) [
    | inl b ↦ ground (arith, k, b)
    | inr b ↦ (d.host, if d.port == 0 then n else d.port, ground (arith, k, b), by_node_port t q)
  ]

  internal_endpoint-IsOfHost :
      (n : ℕ) → internal_endpoint join itoa s capi n ≡ api_endpoint e → IsOfHost
  unfolding internal_endpoint
  internal_endpoint-IsOfHost n k = on_type s.service_type refl k
    where
      on_type :
          (ty : ServiceType)
          → s.service_type ≡ ty
          → (internal_endpoint join itoa (record s { service_type = ty }) capi n) ≡ api_endpoint e
          → IsOfHost
      on_type node_port_service t k = node_port_endpoint-IsOfHost capi n t refl k
      on_type cluster_ip_service t k =
          (s.cluster_ip, n, ground (arith, k), by_cluster_ip (λ q. ground (arith, t, q)))
      on_type load_balancer_service t k =
          (s.cluster_ip, n, ground (arith, k), by_cluster_ip (λ q. ground (arith, t, q)))

  determine_api_endpoint-IsOfHost :
      determine_api_endpoint join itoa s capi ≡ api_endpoint e → IsOfHost
  unfolding determine_api_endpoint
  determine_api_endpoint-IsOfHost k = elim (Bool-cases (has_no_cluster_ip s)) [
    | inl b ↦ ground (arith, k, b)
    | inr b ↦ elim (Option-cases (get_service_external_address s)) [
      | inl a ↦ internal_endpoint-IsOfHost (get_api_server_port s.ports) (ground (arith, k, b, a))
      | inr (h, a) ↦ (h, get_api_server_port s.ports, ground (arith, k, b, a), by_load_balancer a)
    ]
  ]

-- What the choice of an endpoint gives, the writer of the ConfigMap reads back: where
-- DetermineAPIEndpoint gives an endpoint, parseEndpoint splits it into a host and the digits of a
-- port, and the host is the external address of the load balancer, or for a NodePort the host that
-- the CAPI Cluster has published, or the ClusterIP of a Service that is no NodePort. The hosts have no
-- brackets, the digits no colon, and hosts with a colon are joined in brackets.
pub parse_endpoint-determine_api_endpoint :
    (join : Text → Text → Text) (itoa : ℕ → Text) (s : ControlPlane) (capi : Option HostPort)
    (e : Text)
    → JoinsPlain join
    → JoinsBracketed join
    → ((n : ℕ) → IsPort (itoa n))
    → ((h : Text) → Serves s capi h → IsHost h)
    → determine_api_endpoint join itoa s capi ≡ api_endpoint e
    → (h : Text) × (n : ℕ) × (parse_endpoint e ≡ some (h, itoa n)) × Serves s capi h
parse_endpoint-determine_api_endpoint join itoa s capi e plain bracketed digits hosts k =
    let (h, n, q, serves) = determine_api_endpoint-IsOfHost join itoa s capi e k in
    let parsed = parse_endpoint-join join h (itoa n) plain bracketed (hosts h serves) (digits n) in
    (h, n, ap parse_endpoint q ∙ parsed, serves)

-- A cluster name comes back from the name of its ClusterDeployment, which is the name of the colony, a
-- dash and the name of the cluster, also where these names hold dashes themselves.
pub extract_cluster_name-append :
    (colony_name cluster_name : Text)
    → extract_cluster_name_from_deployment_name
        (colony_name ++ (bytes "-" ++ cluster_name))
        colony_name
      ≡ cluster_name
unfolding extract_cluster_name_from_deployment_name strip
extract_cluster_name-append [] cluster_name = refl
extract_cluster_name-append (c ∷ colony_name) cluster_name =
    ground (arith, extract_cluster_name-append colony_name cluster_name)
