-- ===== src/Sweep.antt =====
-- The removal of routes: CleanupRoutes of one workspace
-- (internal/controller/workspaces/routing/gatewayapi/provider.go), SweepOrphans of all regional clusters
-- (sweep.go there), and sweepOnce of internal/controller/workspaces/routes_sweeper.go. A removal is the
-- sequence of its requests. A delete whose object or kind is not there counts as answered.
pub mod Orphans
pub mod Complete
use exalsius_operator.Kube.{Labels, Fetched, found, not_found, get_failed}
use exalsius_operator.Mesh.{Namespace, label_workspace}
use exalsius_operator.Naming.{workspace_namespace_name}
use exalsius_operator.Prelude.{
  Bool, true, false, not, ◌||◌, Option, none, some, List, [], ◌∷◌, ◌++◌, Text, bytes, text_eq,
  is_empty, any, keep, lookup, label, if◌then◌else◌,
}
use exalsius_operator.Provider.Context.{Target}
use exalsius_operator.Regional.{
  Cluster, has_label, find_regional_cluster_deployment, label_kof_regional_cluster_name,
  label_kof_cluster_role,
}
use exalsius_operator.Prerequisites.{workspace}
use exalsius_operator.Reconcile.Phases.{is_active}
use exalsius_operator.Workspace.{deleting}
use exalsius_operator.Provider.Complete.{names}

-- The requests, with the name of the regional cluster. The TCPRoutes of a namespace may be restricted
-- to those of one workspace.
pub data Request : Type 0 where
  delete_tcp_routes : Text → Text → Option Text → Request
  delete_namespace : Text → Text → Request

-- What a regional cluster answers; `tcp_deleted` says of a namespace whether the delete of its
-- TCPRoutes is answered.
pub record RegionalAnswers : Type 0 where
  pub reachable : Bool
  pub namespaces : Option (List (Text × Namespace))
  pub tcp_deleted : Text → Bool

-- `client.HasLabels` of the workspace label
abbrev pub has_workspace : Text × Namespace → Bool
has_workspace n = elim (lookup label_workspace n.1.labels) [ none ↦ false | some v ↦ true ]

module _ (is_active : Text → Bool) where
  -- A namespace that the sweep leaves alone.
  unfoldable pub is_kept : Namespace → Bool
  is_kept ns =
      let workspace = label label_workspace ns.labels in
      ns.deleting || (is_empty workspace || is_active workspace)

  unfoldable pub sweep_namespaces : Text → (Text → Bool) → List (Text × Namespace) → List Request
  sweep_namespaces cluster tcp_deleted [] = []
  sweep_namespaces cluster tcp_deleted ((name, ns) ∷ nss) =
      let rest = sweep_namespaces cluster tcp_deleted nss in
      if is_kept ns
      then rest
      else if tcp_deleted name
      then delete_tcp_routes cluster name none ∷ delete_namespace cluster name ∷ rest
      else delete_tcp_routes cluster name none ∷ rest

  unfoldable pub sweep_cluster : Cluster → RegionalAnswers → List Request
  sweep_cluster c a =
      if a.reachable
      then (elim a.namespaces [
        | none ↦ []
        | some nss ↦ sweep_namespaces c.name a.tcp_deleted (keep has_workspace nss)
      ])
      else []

  unfoldable pub sweep_clusters : (Cluster → RegionalAnswers) → List Cluster → List Request
  sweep_clusters answers [] = []
  sweep_clusters answers (c ∷ cs) = sweep_cluster c (answers c) ++ sweep_clusters answers cs

-- listRegionalClusterDeployments
unfoldable pub list_regional_cluster_deployments : Option (List Cluster) → Option (List Cluster)
unfolding has_label
list_regional_cluster_deployments none = none
list_regional_cluster_deployments (some cs) =
    some (keep (has_label label_kof_cluster_role (bytes "regional")) cs)

-- SweepOrphans: its requests, and whether it succeeds
unfoldable pub sweep_orphans :
    (Text → Bool) → Option (List Cluster) → (Cluster → RegionalAnswers) → List Request × Bool
sweep_orphans is_active listing answers = elim (list_regional_cluster_deployments listing) [
  | none ↦ ([], false)
  | some cs ↦ (sweep_clusters is_active answers cs, true)
]

-- The active set of sweepOnce, from the names of all WorkspaceDeployments.
abbrev pub is_active_in : List Text → Text → Bool
is_active_in names name = any (text_eq name) names

-- sweepOnce
unfoldable pub sweep_once :
    Option (List Text) → Option (List Cluster) → (Cluster → RegionalAnswers) → List Request
sweep_once none listing answers = []
sweep_once (some names) listing answers = (sweep_orphans (is_active_in names) listing answers).0

-- What the clusters answer to one CleanupRoutes.
pub record CleanupAnswers : Type 0 where
  pub cluster : Fetched Labels
  pub clusters : Option (List Cluster)
  pub reachable : Text → Bool
  pub tcp_deleted : Bool
  pub namespace_deleted : Bool

-- The removal from the regional cluster that was found.
unfoldable pub clean_up_on : CleanupAnswers → Target → Option Cluster → List Request × Bool
clean_up_on a target none = ([], true)
clean_up_on a target (some c) =
    let ns_name = workspace_namespace_name target.workspace_name in
    let tcp = delete_tcp_routes c.name ns_name (some target.workspace_name) in
    if a.reachable c.name
    then (if a.tcp_deleted
        then (tcp ∷ delete_namespace c.name ns_name ∷ [], a.namespace_deleted)
        else (tcp ∷ [], false))
    else ([], false)

-- CleanupRoutes: its requests, and whether it succeeds
unfoldable pub on_cluster : CleanupAnswers → Target → Fetched Labels → List Request × Bool
on_cluster a target not_found = ([], true)
on_cluster a target get_failed = ([], false)
on_cluster a target (found labels) =
    let regional_name = label label_kof_regional_cluster_name labels in
    if is_empty regional_name
    then ([], true)
    else clean_up_on a target
        (find_regional_cluster_deployment a.clusters target.cluster_namespace regional_name)

unfoldable pub cleanup_provider_routes : CleanupAnswers → Target → List Request × Bool
cleanup_provider_routes a target = on_cluster a target a.cluster
