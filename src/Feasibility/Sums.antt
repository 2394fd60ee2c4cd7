-- ===== src/Feasibility/Sums.antt =====
-- The free capacity as sums over the nodes and the pods.
use exalsius_operator.Feasibility.{
  Requests, CapacityNode, CapacityPod, Aggregate, GpuFilter, pod_consumes_resources, add_node,
  add_nodes, subtract_container, subtract_containers, subtract_pods, no_capacity, free_capacity,
  pod_gpu_matches_node,
}
use exalsius_operator.Kube.{node_is_schedulable}
use exalsius_operator.Prelude.{
  ℕ, ◌≡◌, Bool, List, [], ◌∷◌, map, ℤ, ◌+ℤ◌, ◌-ℤ◌, pos, keep, sum, if◌then◌else◌, refl, sym, ap,
  ◌∙◌, inl, inr, arith, +ℤ_pos, -ℤ_pos, +ℤ_zero, -ℤ_zero, Bool-cases,
}

-- The sum of an amount over the schedulable nodes.
abbrev pub node_total : (CapacityNode → ℕ) → List CapacityNode → ℕ
node_total amount_of nodes = sum (map amount_of (keep (λ n. node_is_schedulable n.node) nodes))

-- The sum of an amount over the containers of the pods that consume resources.
abbrev pub pod_total : (Requests → ℕ) → List CapacityPod → ℕ
pod_total amount_of pods =
    sum (map (λ p. sum (map amount_of p.containers)) (keep pod_consumes_resources pods))

-- A field of the aggregate that each node adds to, and each container subtracts from.
pub record Field (get : Aggregate → ℤ) (of_node : CapacityNode → ℕ) (of_container : Requests → ℕ)
    : Type 0 where
  added :
      (f : GpuFilter) (n : CapacityNode) (a : Aggregate)
      → get (add_node f n a)
        ≡ (if node_is_schedulable n.node then get a +ℤ pos (of_node n) else get a)
  taken :
      (m : Bool) (r : Requests) (a : Aggregate)
      → get (subtract_container m r a) ≡ get a -ℤ pos (of_container r)
  unclamped :
      (f : GpuFilter) (nodes : List CapacityNode) (pods : List CapacityPod)
      → get (free_capacity f nodes pods)
        ≡ get (subtract_pods f nodes pods (add_nodes f nodes no_capacity))
  start : get no_capacity ≡ pos 0

module _ {get : Aggregate → ℤ} {of_node : CapacityNode → ℕ} {of_container : Requests → ℕ}
    (d : Field get of_node of_container) where
  add_nodes-total :
      (f : GpuFilter) (ns : List CapacityNode) (a : Aggregate)
      → get (add_nodes f ns a) ≡ get a +ℤ pos (node_total of_node ns)
  unfolding add_nodes
  add_nodes-total f [] a = sym (+ℤ_zero (get a))
  add_nodes-total f (n ∷ ns) a = elim (Bool-cases (node_is_schedulable n.node)) [
    | inl e ↦
        let added : get (add_node f n a) ≡ get a +ℤ pos (of_node n) = d.added f n a ∙ rw e in
        rw (e, add_nodes-total f ns (add_node f n a), added)
          (+ℤ_pos (get a) (of_node n) (node_total of_node ns))
    | inr e ↦
        let added : get (add_node f n a) ≡ get a = d.added f n a ∙ rw e in
        rw (e, add_nodes-total f ns (add_node f n a), added)
  ]

  subtract_containers-total :
      (m : Bool) (rs : List Requests) (a : Aggregate)
      → get (subtract_containers m rs a) ≡ get a -ℤ pos (sum (map of_container rs))
  unfolding subtract_containers
  subtract_containers-total m [] a = sym (-ℤ_zero (get a))
  subtract_containers-total m (r ∷ rs) a =
      subtract_containers-total m rs (subtract_container m r a)
      ∙ ap (λ b. b -ℤ pos (sum (map of_container rs))) (d.taken m r a)
      ∙ -ℤ_pos (get a) (of_container r) (sum (map of_container rs))

  subtract_pods-total :
      (f : GpuFilter) (nodes : List CapacityNode) (ps : List CapacityPod) (a : Aggregate)
      → get (subtract_pods f nodes ps a) ≡ get a -ℤ pos (pod_total of_container ps)
  unfolding subtract_pods
  subtract_pods-total f nodes [] a = sym (-ℤ_zero (get a))
  subtract_pods-total f nodes (p ∷ ps) a = elim (Bool-cases (pod_consumes_resources p)) [
    | inl e ↦
        let m = pod_gpu_matches_node f p.node_name nodes in
        rw e (
          subtract_pods-total f nodes ps (subtract_containers m p.containers a)
          ∙ ap (λ b. b -ℤ pos (pod_total of_container ps))
              (subtract_containers-total m p.containers a)
          ∙ -ℤ_pos (get a) (sum (map of_container p.containers)) (pod_total of_container ps))
    | inr e ↦ rw e (subtract_pods-total f nodes ps a)
  ]

  pub free_capacity-total :
      (f : GpuFilter) (nodes : List CapacityNode) (pods : List CapacityPod)
      → get (free_capacity f nodes pods)
        ≡ pos 0 +ℤ pos (node_total of_node nodes) -ℤ pos (pod_total of_container pods)
  free_capacity-total f nodes pods =
      d.unclamped f nodes pods
      ∙ subtract_pods-total f nodes pods (add_nodes f nodes no_capacity)
      ∙ ap (λ b. b -ℤ pos (pod_total of_container pods))
          (add_nodes-total f nodes no_capacity
            ∙ ap (λ b. b +ℤ pos (node_total of_node nodes)) d.start)

pub cpu-Field : Field (λ a. a.cpu) (λ n. n.cpu) (λ r. r.cpu)
unfolding add_node subtract_container free_capacity
cpu-Field = record {
  added = λ f n a. ground arith;
  taken = λ m r a. refl;
  unclamped = λ f nodes pods. refl;
  start = refl;
}

pub memory-Field : Field (λ a. a.memory) (λ n. n.memory) (λ r. r.memory)
unfolding add_node subtract_container free_capacity
memory-Field = record {
  added = λ f n a. ground arith;
  taken = λ m r a. refl;
  unclamped = λ f nodes pods. refl;
  start = refl;
}

pub storage-Field : Field (λ a. a.storage) (λ n. n.storage) (λ r. r.storage)
unfolding add_node subtract_container free_capacity
storage-Field = record {
  added = λ f n a. ground arith;
  taken = λ m r a. refl;
  unclamped = λ f nodes pods. refl;
  start = refl;
}
