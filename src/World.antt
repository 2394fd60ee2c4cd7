-- ===== src/World.antt =====
-- What the other systems answer to one run of the workspace controller, in the order of its calls.
use exalsius_operator.Feasibility.{CapacityNode, CapacityPod}
use exalsius_operator.Kube.{Node, Pod, Fetched}
use exalsius_operator.Mesh.{MeshConfig, Namespace, Created}
use exalsius_operator.Prelude.{ℕ, Bool, Option, List, Text}
use exalsius_operator.Prerequisites.{ServiceSet, ClusterDeployment}
use exalsius_operator.Queue.{Deployment}
use exalsius_operator.Run.{RouteEntry, WorkspaceClass}
use exalsius_operator.Teardown.{Answers}

-- The answers to ensurePrerequisiteServiceSet for one template: the read of the ServiceSet, whether
-- the values of the prerequisite have an error, and the create.
pub record PrerequisiteAnswers : Type 0 where
  pub existing : Fetched ServiceSet
  pub values_error : Bool
  pub creation : Created

-- The answer of the routing provider.
pub data Routed : Type 0 where
  infra_not_ready routing_failed : Routed
  routed : List RouteEntry → Routed

-- A listing that fails is `none`. `cluster_again`, `child_client_again` and `nodes_again` are later
-- reads of the same thing. `route_provider` is false where no provider is registered.
pub record World : Type 0 where
  pub now : ℕ
  pub finalizer_added : Bool
  pub class : Fetched WorkspaceClass
  pub cluster : Fetched ClusterDeployment
  pub regional_client : Bool
  pub regional_nodes : Option (List CapacityNode)
  pub regional_pods : Option (List CapacityPod)
  pub child_client : Bool
  pub nodes : Option (List Node)
  pub pods : Option (List Pod)
  pub siblings : Option (List (Deployment ℕ))
  pub cluster_again : Fetched ClusterDeployment
  pub prerequisite_set : Text → Fetched ServiceSet
  pub prerequisite_answers : Text → PrerequisiteAnswers
  pub service_set : Fetched ServiceSet
  pub refetched : Bool
  pub route_provider : Bool
  pub routes : Routed
  pub child_client_again : Bool
  pub nodes_again : Option (List Node)
  pub values_serialized : Bool
  pub mesh : MeshConfig
  pub namespace : Fetched Namespace
  pub namespace_creation : Created
  pub namespace_updated : Bool
  pub own_set : Fetched ServiceSet
  pub owner_reference : Bool
  pub set_written : Bool
  pub deletion : Answers
  pub grace_period : ℕ
