-- ===== src/Feasibility/Fits.antt =====
-- The verdict and the capacity.
use exalsius_operator.Feasibility.{
  Requests, CapacityNode, CapacityPod, free_capacity, or_zero, replicas_of, filter_of,
}
use exalsius_operator.Feasibility.Sums.{node_total, pod_total}
use exalsius_operator.Prelude.{ℕ, ◌+◌, ◌*◌, ◌≤◌, Option, List, ◌≤ℤ◌, pos}
use exalsius_operator.Resources.{WorkspaceResourceSpec}

-- The demand of a quantity and the requests of the pods fit the schedulable nodes.
abbrev pub HasRoom :
    ℕ → (CapacityNode → ℕ) → (Requests → ℕ) → List CapacityNode → List CapacityPod → Type 0
HasRoom demand of_node of_container nodes pods =
    demand + pod_total of_container pods ≤ node_total of_node nodes

-- The amount of a resource that is asked for in all: the amount for a replica, for each of them.
abbrev pub in_all : WorkspaceResourceSpec ℕ → Option ℕ → ℕ
in_all r per = or_zero per * replicas_of r

-- There is room for each of the three quantities, and for the GPUs.
pub record HasCapacity (r : WorkspaceResourceSpec ℕ) (nodes : List CapacityNode)
    (pods : List CapacityPod) : Type 0 where
  pub cpu : HasRoom (in_all r r.per_replica.cpu) (λ n. n.cpu) (λ c. c.cpu) nodes pods
  pub memory : HasRoom (in_all r r.per_replica.memory) (λ n. n.memory) (λ c. c.memory) nodes pods
  pub storage :
      HasRoom (in_all r r.per_replica.storage) (λ n. n.storage) (λ c. c.storage) nodes pods
  pub gpu : pos (in_all r r.per_replica.gpu_count) ≤ℤ (free_capacity (filter_of r) nodes pods).gpu
