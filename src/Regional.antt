-- ===== src/Regional.antt =====
-- The regional clusters of internal/controller/infra/common/regional.go: which cluster is the child
-- of one, which ClusterDeployment is the regional cluster, and the client of a cluster.
use exalsius_operator.Kube.{Labels, Fetched, found}
use exalsius_operator.Prelude.{
  Bool, false, Option, none, some, List, [], ◌∷◌, ◌++◌, Text, bytes, text_eq, is_empty, keep,
  lookup, if◌then◌else◌,
}

abbrev pub label_kof_regional_cluster_name : Text
label_kof_regional_cluster_name = bytes "k0rdent.mirantis.com/kof-regional-cluster-name"

abbrev pub label_kof_cluster_name : Text
label_kof_cluster_name = bytes "k0rdent.mirantis.com/kof-cluster-name"

abbrev pub label_kof_cluster_role : Text
label_kof_cluster_role = bytes "k0rdent.mirantis.com/kof-cluster-role"

-- A ClusterDeployment of the management cluster, as far as it is read here.
pub record Cluster : Type 0 where
  pub name : Text
  pub namespace : Text
  pub labels : Labels

-- The part of a ColonyCluster that is read here.
pub record ColonyCluster : Type 0 where
  pub cluster_name : Text
  pub cluster_labels : Labels

-- IsRegionalChild: the name of the regional cluster
unfoldable pub is_regional_child : ColonyCluster → Option Text
is_regional_child c = elim (lookup label_kof_regional_cluster_name c.cluster_labels) [
  | none ↦ none
  | some n ↦ if is_empty n then none else some n
]

-- A listing by `client.MatchingLabels` of one label.
unfoldable pub has_label : Text → Text → Cluster → Bool
has_label k v c = elim (lookup k c.labels) [ none ↦ false | some w ↦ text_eq w v ]

abbrev in_namespace : Text → Cluster → Bool
in_namespace ns c = text_eq c.namespace ns

abbrev pub first_of : List Cluster → Option Cluster
first_of [] = none
first_of (c ∷ cs) = some c

-- FindRegionalClusterDeployment: the first one of the listing
unfoldable pub find_regional_cluster_deployment :
    Option (List Cluster) → Text → Text → Option Cluster
unfolding has_label
find_regional_cluster_deployment none namespace regional_name = none
find_regional_cluster_deployment (some cs) namespace regional_name =
    first_of
      (keep (has_label label_kof_cluster_name regional_name) (keep (in_namespace namespace) cs))

-- FindRegionalClusterDeploymentsByRole
unfoldable pub find_regional_cluster_deployments_by_role :
    Option (List Cluster) → Text → Option (List Cluster)
unfolding has_label
find_regional_cluster_deployments_by_role none namespace = none
find_regional_cluster_deployments_by_role (some cs) namespace =
    some (
      keep (has_label label_kof_cluster_role (bytes "regional")) (keep (in_namespace namespace) cs))

-- GetClusterClientForCD: whether there is a client for the kubeconfig secret of the cluster.
-- `connects` says whether a client can be built from a kubeconfig.
unfoldable pub has_cluster_client :
    (Text → Fetched (List (Text × Text))) → (Text → Bool) → Text → Bool
has_cluster_client secret connects cd_name = elim (secret (cd_name ++ bytes "-kubeconfig")) [
  | found data_of ↦ elim (lookup (bytes "value") data_of) [
    | none ↦ false
    | some kubeconfig ↦ connects kubeconfig
  ]
  | _ ↦ false
]

-- GetColonyClusterByName
unfoldable pub get_colony_cluster_by_name : Text → List ColonyCluster → Option ColonyCluster
get_colony_cluster_by_name name [] = none
get_colony_cluster_by_name name (c ∷ cs) =
    let rest = get_colony_cluster_by_name name cs in
    if text_eq c.cluster_name name then some c else rest

-- The answer of ResolveRegionalClient.
pub data RegionalClient : Type 0 where
  not_regional regional_error : RegionalClient
  regional_client : Cluster → RegionalClient

abbrev on_regional_cluster : (Text → Bool) → Option Cluster → RegionalClient
on_regional_cluster reachable none = regional_error
on_regional_cluster reachable (some c) =
    if reachable c.name then regional_client c else regional_error

abbrev on_regional_name :
    Option (List Cluster) → (Text → Bool) → Text → Option Text → RegionalClient
on_regional_name listing reachable namespace none = not_regional
on_regional_name listing reachable namespace (some n) =
    on_regional_cluster reachable (find_regional_cluster_deployment listing namespace n)

abbrev on_colony_cluster :
    Option (List Cluster) → (Text → Bool) → Text → Option ColonyCluster → RegionalClient
on_colony_cluster listing reachable namespace none = not_regional
on_colony_cluster listing reachable namespace (some c) =
    on_regional_name listing reachable namespace (is_regional_child c)

-- ResolveRegionalClient; `reachable` says whether a cluster of the name has a client
unfoldable pub resolve_regional_client :
    Option (List Cluster) → (Text → Bool) → Text → List ColonyCluster → Text → RegionalClient
resolve_regional_client listing reachable namespace clusters name =
    on_colony_cluster listing reachable namespace (get_colony_cluster_by_name name clusters)
