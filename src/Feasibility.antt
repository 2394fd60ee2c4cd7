-- ===== src/Feasibility.antt =====
-- internal/controller/workspaces/feasibility.go: whether a cluster has the free capacity that a
-- workspace asks for. The quantities of CPU, memory and storage are counted in thousandths, the
-- precision of `MilliValue`; they may be any integer while pods are subtracted. GPUs are counted as
-- `Quantity.Value()`, in int64, and reported in int32.
pub mod Sums
pub mod Fits
use exalsius_operator.Gpu.{resource_nvidia_gpu, resource_amd_gpu, vendor_nvidia, vendor_amd}
use exalsius_operator.Inject.{gpu_vendor, replicas, gpu_count}
use exalsius_operator.Kube.{
  Resources, Node, PodPhase, node_is_schedulable, amount, succeeded, failed,
}
use exalsius_operator.Naming.{lower}
use exalsius_operator.Prelude.{
  ℕ, ◌+◌, ◌*◌, Bool, true, false, not, ◌&&◌, ◌||◌, Option, none, some, List, [], ◌∷◌, map, Text,
  bytes, text_eq, is_empty, contains, ℤ, ◌+ℤ◌, ◌-ℤ◌, ltb_ℤ, to_int32, to_int64, ◌==◌, pos, label,
  ltb, if◌then◌else◌,
}
use exalsius_operator.Resources.{WorkspaceResourceSpec}

-- The requests of a container: the amounts of its GPU resources and the three quantities.
pub record Requests : Type 0 where
  pub gpus : Resources
  pub cpu : ℕ
  pub memory : ℕ
  pub storage : ℕ

-- A node with its allocatable quantities.
pub record CapacityNode : Type 0 where
  pub node : Node
  pub cpu : ℕ
  pub memory : ℕ
  pub storage : ℕ

pub record CapacityPod : Type 0 where
  pub node_name : Text
  pub phase : PodPhase
  pub containers : List Requests

-- aggregate
pub record Aggregate : Type 0 where
  pub cpu : ℤ
  pub memory : ℤ
  pub storage : ℤ
  pub gpu : ℤ

-- The GPUs that are asked for: a vendor and a model, where they are given.
pub record GpuFilter : Type 0 where
  pub vendor : Option Text
  pub gpu_type : Option Text

abbrev pub node_label_gpu_product : Text
node_label_gpu_product = bytes "nvidia.com/gpu.product"

abbrev pub node_label_gpu_model : Text
node_label_gpu_model = bytes "nvidia.com/gpu.model"

abbrev lowered : Text → Text
lowered t = map lower t

-- The labels of a node have the model, whatever the case of its letters.
unfoldable pub has_gpu_type : Option Text → Node → Bool
has_gpu_type none n = true
has_gpu_type (some t) n =
    is_empty t
    || (contains (lowered (label node_label_gpu_product n.labels)) (lowered t)
        || contains (lowered (label node_label_gpu_model n.labels)) (lowered t))

-- A vendor is counted: it is the one asked for, or none is.
abbrev pub counts_vendor : Text → Option Text → Bool
counts_vendor v none = true
counts_vendor v (some w) = text_eq w v

unfoldable pub matching_gpus : GpuFilter → Node → ℕ
matching_gpus f n =
    (if counts_vendor vendor_nvidia f.vendor then amount resource_nvidia_gpu n.allocatable else 0)
    + (if counts_vendor vendor_amd f.vendor then amount resource_amd_gpu n.allocatable else 0)

abbrev pub is_unset : Option Text → Bool
is_unset none = true
is_unset (some t) = false

-- nodeGPUMatches
unfoldable pub node_gpu_matches : GpuFilter → Node → ℕ × Bool
node_gpu_matches f n =
    if has_gpu_type f.gpu_type n
    then (let count = matching_gpus f n in
        (count, ltb 0 count || (is_unset f.vendor && is_unset f.gpu_type)))
    else (0, false)

abbrev is_over : PodPhase → Bool
is_over succeeded = true
is_over failed = true
is_over _ = false

-- podConsumesResources
unfoldable pub pod_consumes_resources : CapacityPod → Bool
pod_consumes_resources p = not (is_empty p.node_name) && not (is_over p.phase)

-- podContainerGPUCount
unfoldable pub pod_container_gpu_count : Requests → ℕ
pod_container_gpu_count r = amount resource_nvidia_gpu r.gpus + amount resource_amd_gpu r.gpus

-- podGPUMatchesNode: the first node of the pod's name decides
unfoldable pub pod_gpu_matches_node : GpuFilter → Text → List CapacityNode → Bool
pod_gpu_matches_node f name [] = false
pod_gpu_matches_node f name (n ∷ ns) =
    if text_eq n.node.name name
    then (node_gpu_matches f n.node).1
    else pod_gpu_matches_node f name ns

-- One round of the loop over the nodes.
unfoldable pub add_node : GpuFilter → CapacityNode → Aggregate → Aggregate
add_node f n a =
    if node_is_schedulable n.node
    then record {
      cpu = a.cpu +ℤ pos n.cpu;
      memory = a.memory +ℤ pos n.memory;
      storage = a.storage +ℤ pos n.storage;
      gpu =
          if (node_gpu_matches f n.node).1
          then a.gpu +ℤ pos (node_gpu_matches f n.node).0
          else a.gpu;
    }
    else a

unfoldable pub add_nodes : GpuFilter → List CapacityNode → Aggregate → Aggregate
add_nodes f [] a = a
add_nodes f (n ∷ ns) a = add_nodes f ns (add_node f n a)

-- One round of the loop over the containers of a pod.
unfoldable pub subtract_container : Bool → Requests → Aggregate → Aggregate
subtract_container matches r a = record {
  cpu = a.cpu -ℤ pos r.cpu;
  memory = a.memory -ℤ pos r.memory;
  storage = a.storage -ℤ pos r.storage;
  gpu =
      if ltb 0 (pod_container_gpu_count r) && matches
      then a.gpu -ℤ pos (pod_container_gpu_count r)
      else a.gpu;
}

unfoldable pub subtract_containers : Bool → List Requests → Aggregate → Aggregate
subtract_containers matches [] a = a
subtract_containers matches (r ∷ rs) a =
    subtract_containers matches rs (subtract_container matches r a)

unfoldable pub subtract_pods :
    GpuFilter → List CapacityNode → List CapacityPod → Aggregate → Aggregate
subtract_pods f nodes [] a = a
subtract_pods f nodes (p ∷ ps) a = subtract_pods f nodes ps (
    if pod_consumes_resources p
    then subtract_containers (pod_gpu_matches_node f p.node_name nodes) p.containers a
    else a)

abbrev pub no_capacity : Aggregate
no_capacity = record { cpu = pos 0; memory = pos 0; storage = pos 0; gpu = pos 0 }

-- What is free: the sum over the nodes less the requests of the pods, no GPUs where that is negative.
unfoldable pub free_capacity : GpuFilter → List CapacityNode → List CapacityPod → Aggregate
free_capacity f nodes pods =
    let a = subtract_pods f nodes pods (add_nodes f nodes no_capacity) in
    record a { gpu = if ltb_ℤ a.gpu (pos 0) then pos 0 else a.gpu }

abbrev pub or_zero : Option ℕ → ℕ
or_zero none = 0
or_zero (some n) = n

abbrev pub replicas_of : WorkspaceResourceSpec ℕ → ℕ
replicas_of r = elim r.replicas [ none ↦ 1 | some n ↦ n ]

-- multiplyQuantity, on thousandths: a factor other than 1 is multiplied in int64, which wraps round.
unfoldable pub multiply_quantity : ℕ → ℕ → ℤ
multiply_quantity q factor =
    if factor == 1 then pos q else if factor == 0 then pos 0 else to_int64 (q * factor)

-- totalsFromPerReplica, as the demand that is compared. The product of the GPUs is one of int32.
unfoldable pub total_demand : WorkspaceResourceSpec ℕ → Aggregate
unfolding multiply_quantity
total_demand r = record {
  cpu = multiply_quantity (or_zero r.per_replica.cpu) (replicas_of r);
  memory = multiply_quantity (or_zero r.per_replica.memory) (replicas_of r);
  storage = multiply_quantity (or_zero r.per_replica.storage) (replicas_of r);
  gpu = to_int32 (pos (or_zero r.per_replica.gpu_count * replicas_of r));
}

-- The amounts that are missing.
pub record Missing : Type 0 where
  pub cpu : Option ℤ
  pub memory : Option ℤ
  pub storage : Option ℤ
  pub gpu : Option ℤ

abbrev pub shortfall : ℤ → ℤ → Option ℤ
shortfall demand available = if ltb_ℤ available demand then some (demand -ℤ available) else none

abbrev pub is_none : Option ℤ → Bool
is_none none = true
is_none (some d) = false

-- computeMissing
unfoldable pub compute_missing : Aggregate → Aggregate → Option Missing
compute_missing demand available =
    let missing : Missing = record {
      cpu = shortfall demand.cpu available.cpu;
      memory = shortfall demand.memory available.memory;
      storage = shortfall demand.storage available.storage;
      gpu =
          if ltb_ℤ available.gpu demand.gpu
          then some (to_int32 (demand.gpu -ℤ available.gpu))
          else none;
    } in
    if (is_none missing.cpu && is_none missing.memory)
      && (is_none missing.storage && is_none missing.gpu)
    then none
    else some missing

-- FeasibilityStatus, without its time and its message. The GPUs that are available are an int32.
pub record FeasibilityStatus : Type 0 where
  pub fits : Bool
  pub demanded : Aggregate
  pub available : Aggregate
  pub missing : Option Missing

abbrev pub filter_of : WorkspaceResourceSpec ℕ → GpuFilter
filter_of r = record { vendor = r.per_replica.gpu_vendor; gpu_type = r.per_replica.gpu_type }

abbrev pub no_missing : Option Missing → Bool
no_missing none = true
no_missing (some m) = false

-- computeFeasibility, behind the listing of nodes and pods
unfoldable pub feasibility_of :
    WorkspaceResourceSpec ℕ → List CapacityNode → List CapacityPod → FeasibilityStatus
feasibility_of demanded nodes pods =
    let available = free_capacity (filter_of demanded) nodes pods in
    let missing = compute_missing (total_demand demanded) available in
    record {
      fits = no_missing missing;
      demanded = total_demand demanded;
      available = record available { gpu = to_int32 available.gpu };
      missing = missing;
    }

-- computeFeasibility; either listing may fail.
unfoldable pub compute_feasibility :
    WorkspaceResourceSpec ℕ
    → Option (List CapacityNode)
    → Option (List CapacityPod)
    → Option FeasibilityStatus
compute_feasibility demanded none pods = none
compute_feasibility demanded (some nodes) none = none
compute_feasibility demanded (some nodes) (some pods) = some (feasibility_of demanded nodes pods)
