-- ===== src/Provider/Served.antt =====
-- What a call of the route provider relies on: the tenant Gateway, its domain and the waypoints.
use exalsius_operator.Prelude.{
  ◌≡◌, refl, ℕ, Bool, true, false, not, ◌||◌, Text, is_empty, ap, ◌∙◌, Option, none, some,
  if◌then◌else◌, label,
}
use exalsius_operator.Mesh.{MeshConfig}
use exalsius_operator.Naming.{waypoint_name}
use exalsius_operator.Provider.{◌>>=◌, give, done, fault, infra_gap, failure}
use exalsius_operator.Provider.Context.{
  GatewayAnswer, gateway_found, gateway_missing, gateway_error, GatewayContext, Topology, Target,
  expect_gateway, ensure_waypoint_ready, resolve_gateway_context, tenant_domain_from_gateway,
  or_infra_gap, labels_or_fail,
}
use exalsius_operator.Kube.{Labels, Fetched, found, get_failed, not_found}
use exalsius_operator.Provider.Keeps.{
  Reads, reads_bind, reads_give, reads_fault, reads_unless, reads_when,
}
use exalsius_operator.Regional.{
  Cluster, label_kof_regional_cluster_name, find_regional_cluster_deployment,
}

abbrev pub is_programmed : GatewayAnswer → Bool
is_programmed (gateway_found gw) = gw.programmed
is_programmed _ = false

-- The waypoint of a cluster is programmed, where waypoints are in use.
abbrev pub has_waypoint : (ℕ → Text → Text) → MeshConfig → (Text → GatewayAnswer) → Text → Bool
has_waypoint hex mesh answers cd_name =
    not mesh.waypoint_enabled || is_programmed (answers (waypoint_name hex cd_name))

-- The tenant Gateway and the regional waypoint are there, and the Gateway has a domain.
abbrev pub IsServed : (ℕ → Text → Text) → MeshConfig → Topology → Target → GatewayContext → Type 0
IsServed hex mesh t target ctx =
    (t.gateway ≡ gateway_found ctx.gateway)
    × (ctx.gateway.programmed ≡ true)
    × (tenant_domain_from_gateway ctx.gateway.listeners ≡ (ctx.domain, ctx.scheme))
    × (is_empty ctx.domain ≡ false)
    × (has_waypoint hex mesh t.regional_waypoint target.cluster_name ≡ true)

-- The regional cluster of the target is there and reachable.
abbrev pub IsPlaced : Topology → Target → Cluster → Type 0
IsPlaced t target c =
    (labels : Labels) × (t.cluster ≡ found labels)
    × (is_empty (label label_kof_regional_cluster_name labels) ≡ false)
    × (find_regional_cluster_deployment t.clusters target.cluster_namespace
          (label label_kof_regional_cluster_name labels)
        ≡ some c)
    × (t.reachable c.name ≡ true)

reads-expect_gateway :
    (a : GatewayAnswer)
    → Reads (expect_gateway a) (λ gw. (a ≡ gateway_found gw) × (gw.programmed ≡ true))
unfolding expect_gateway
reads-expect_gateway (gateway_found gw) = on_programmed gw.programmed refl
  where
    on_programmed :
        (b : Bool)
        → gw.programmed ≡ b
        → Reads
            (if b then give gw else fault infra_gap)
            (λ g. (gateway_found gw ≡ gateway_found g) × (g.programmed ≡ true))
    on_programmed true e = reads_give gw (refl, e)
    on_programmed false e = reads_fault infra_gap
reads-expect_gateway gateway_missing = reads_fault infra_gap
reads-expect_gateway gateway_error = reads_fault failure

module _ (hex : ℕ → Text → Text) (mesh : MeshConfig) where
  pub reads-ensure_waypoint_ready :
      (answers : Text → GatewayAnswer) (cd_name : Text)
      → Reads
          (ensure_waypoint_ready hex mesh answers cd_name)
          (λ u. has_waypoint hex mesh answers cd_name ≡ true)
  unfolding ensure_waypoint_ready
  reads-ensure_waypoint_ready answers cd_name = on_enabled mesh.waypoint_enabled
    where
      on_enabled :
          (b : Bool)
          → Reads
              (if b
                then (expect_gateway (answers (waypoint_name hex cd_name)) >>= λ gw. done)
                else done)
              (λ u. (not b || is_programmed (answers (waypoint_name hex cd_name))) ≡ true)
      on_enabled false = reads_give tt refl
      on_enabled true =
          reads_bind (reads-expect_gateway (answers (waypoint_name hex cd_name)))
            (λ gw q. reads_give tt (ap is_programmed q.0 ∙ q.1))

  reads-labels_or_fail :
      (f : Fetched Labels) → Reads (labels_or_fail f) (λ labels. f ≡ found labels)
  reads-labels_or_fail (found labels) = reads_give labels refl
  reads-labels_or_fail not_found = reads_fault failure
  reads-labels_or_fail get_failed = reads_fault failure

  reads-or_infra_gap : {A : Type 0} (o : Option A) → Reads (or_infra_gap o) (λ a. o ≡ some a)
  reads-or_infra_gap none = reads_fault infra_gap
  reads-or_infra_gap (some a) = reads_give a refl

  pub reads-resolve_gateway_context :
      (t : Topology) (target : Target)
      → Reads
          (resolve_gateway_context hex mesh t target)
          (λ ctx. IsServed hex mesh t target ctx × ((c : Cluster) × IsPlaced t target c))
  unfolding resolve_gateway_context
  reads-resolve_gateway_context t target = reads_bind (reads-labels_or_fail t.cluster) (λ labels el.
      let name = label label_kof_regional_cluster_name labels in
      let regional = find_regional_cluster_deployment t.clusters target.cluster_namespace name in
      reads_bind (reads_unless (is_empty name) infra_gap) (λ u en.
        reads_bind (reads-or_infra_gap regional) (λ (c : Cluster) ec.
          reads_bind (reads_when (t.reachable c.name) failure) (λ u er.
            reads_bind (reads-expect_gateway t.gateway) (λ gw q.
              let domain = (tenant_domain_from_gateway gw.listeners).0 in
              reads_bind (reads_unless (is_empty domain) infra_gap) (λ u d.
                reads_bind (reads-ensure_waypoint_ready t.regional_waypoint target.cluster_name)
                  (λ u p.
                    reads_give _ ((q.0, q.1, refl, d, p), (c, (labels, el, en, ec, er))))))))))
