-- ===== src/Gpu/Free.antt =====
-- The free GPUs that the scan of internal/gpu/offering.go reports, against the nodes and the pods.
use mathlib.Core.Bool.{true≢false}
use exalsius_operator.Gpu.Availability.{
  used_gpus, Scan, scan_resource, scan_resources, scan_nodes, scan_start, container_sum, pod_use,
  selected, finish_scan, availability_for_selector,
}
use exalsius_operator.Gpu.{vendor_resources}
use exalsius_operator.Gpu.Gate.{node_gpus, scan_nodes-total}
use exalsius_operator.Gpu.Placeable.{can_place, HasValues, keep_cong, selected-can_place}
use exalsius_operator.Kube.{
  Labels, Resources, Node, PodPhase, Pod, amount, failed, succeeded, pod_consumes,
}
use exalsius_operator.Prelude.{
  ℕ, ◌+◌, ◌≡◌, refl, Bool, true, false, ◌&&◌, ◌||◌, Option, none, some, List, [], ◌∷◌, map, arith,
  Text, bytes, text_eq, is_empty, keep, sum, lookup, or_else, ltb, if◌then◌else◌, insert,
  lookup-insert, ◌-◌, ap, ◌∙◌, not, sym,
}

-- The resource that is counted for a node, which is one even where the node advertises both.
abbrev counted_resource : Node → Option Text
counted_resource n =
    if ltb 0 (amount (bytes "amd.com/gpu") n.allocatable)
    then some (bytes "amd.com/gpu")
    else if ltb 0 (amount (bytes "nvidia.com/gpu") n.allocatable)
    then some (bytes "nvidia.com/gpu")
    else none

-- The resource that is counted for the node of a name: that of the last one of the name.
abbrev recorded : (Node → Bool) → Text → List Node → Option Text
recorded ok name [] = none
recorded ok name (n ∷ ns) =
    or_else (recorded ok name ns) (if ok n && text_eq n.name name then counted_resource n else none)

abbrev requested : Text → List Resources → ℕ
requested r [] = 0
requested r (c ∷ cs) = amount r c + requested r cs

abbrev has_ended : PodPhase → Bool
has_ended succeeded = true
has_ended failed = true
has_ended _ = false

-- What a pod holds of the resource that is counted for its node: nothing where the pod is over or has
-- no node, or where its node is none that the selector admits.
abbrev held : (Node → Bool) → List Node → Pod → ℕ
held ok nodes p =
    if is_empty p.node_name || has_ended p.phase
    then 0
    else elim (recorded ok p.node_name nodes) [ none ↦ 0 | some r ↦ requested r p.containers ]

abbrev pub held_by_pods : Labels → List Node → List Pod → ℕ
held_by_pods sel nodes pods = sum (map (held (can_place sel) nodes) pods)

-- The GPUs that the nodes admitted by the selector advertise.
abbrev pub advertised : Labels → List Node → ℕ
advertised sel nodes = sum (map node_gpus (keep (can_place sel) nodes))

lookup-scan_resources :
    (n : Node) (s : Scan) (k : Text)
    → lookup k (scan_resources n vendor_resources s).matched
      ≡ or_else (if text_eq n.name k then counted_resource n else none) (lookup k s.matched)
unfolding scan_resources scan_resource
lookup-scan_resources n s k = ground (
  arith,
  lookup-insert n.name k (bytes "amd.com/gpu") s.matched,
  lookup-insert n.name k (bytes "nvidia.com/gpu") s.matched,
  lookup-insert n.name k (bytes "amd.com/gpu") (insert n.name (bytes "nvidia.com/gpu") s.matched),
)

lookup-scan_nodes :
    (ok : Node → Bool) (ns : List Node) (s : Scan) (k : Text)
    → lookup k (scan_nodes ok ns s).matched ≡ or_else (recorded ok k ns) (lookup k s.matched)
unfolding scan_nodes
lookup-scan_nodes ok [] s k = refl
lookup-scan_nodes ok (n ∷ ns) s k = ground (
  arith,
  lookup-scan_nodes ok ns s k,
  lookup-scan_nodes ok ns (scan_resources n vendor_resources s) k,
  lookup-scan_resources n s k,
)

used_by_container : (r : Text) (cs : List Resources) → container_sum r cs ≡ requested r cs
unfolding container_sum
used_by_container r [] = refl
used_by_container r (c ∷ cs) = rw (used_by_container r cs) refl

pod_consumes-has_ended :
    (p : Pod) → pod_consumes p ≡ not (is_empty p.node_name || has_ended p.phase)
unfolding pod_consumes
pod_consumes-has_ended p = ground arith

use_of_resource :
    (o : Option Text) (p : Pod)
    → elim o as (λ x. ℕ) [
      | none ↦ 0
      | some r ↦ if pod_consumes p then container_sum r p.containers else 0
    ]
      ≡ (if is_empty p.node_name || has_ended p.phase
          then 0
          else elim o as (λ x. ℕ) [ none ↦ 0 | some r ↦ requested r p.containers ])
use_of_resource none p = ground arith
use_of_resource (some r) p =
    ground (arith, pod_consumes-has_ended p, used_by_container r p.containers)

recorded_cong :
    {f g : Node → Bool}
    → ((n : Node) → f n ≡ g n)
    → (k : Text) (ns : List Node) → recorded f k ns ≡ recorded g k ns
recorded_cong h k [] = refl
recorded_cong h k (n ∷ ns) = rw (h n, recorded_cong h k ns) refl

or_else-none : (o : Option Text) → or_else o none ≡ o
or_else-none none = refl
or_else-none (some r) = refl

matched_node :
    (sel : Labels) (nodes : List Node) (k : Text)
    → HasValues sel
    → lookup k (scan_nodes (selected sel) nodes scan_start).matched
      ≡ recorded (can_place sel) k nodes
unfolding lookup
matched_node sel nodes k v =
    lookup-scan_nodes (selected sel) nodes scan_start k
    ∙ or_else-none (recorded (selected sel) k nodes)
    ∙ recorded_cong (λ n. selected-can_place sel n v) k nodes

used_gpus-held :
    (sel : Labels) (nodes : List Node) (pods : List Pod)
    → HasValues sel
    → used_gpus (scan_nodes (selected sel) nodes scan_start).matched pods
      ≡ held_by_pods sel nodes pods
unfolding used_gpus pod_use
used_gpus-held sel nodes [] v = refl
used_gpus-held sel nodes (p ∷ ps) v =
    let m =
      ap
        (λ o. elim o as (λ x. ℕ) [
          | none ↦ 0
          | some r ↦ if pod_consumes p then container_sum r p.containers else 0
        ])
        (matched_node sel nodes p.node_name v)
      ∙ use_of_resource (recorded (can_place sel) p.node_name nodes) p in
    omega (arith, m, used_gpus-held sel nodes ps v)

finish_scan-free :
    (pods : List Pod) (s : Scan)
    → (finish_scan pods s).found ≡ true
    → (finish_scan pods s).free ≡ s.total - used_gpus s.matched pods
unfolding finish_scan
finish_scan-free pods s h = ground (arith, h)

-- Where the scan by a selector whose entries all have a value finds GPUs, `free` is what the nodes
-- on which a pod with that node selector can be placed advertise, over both vendors, less what
-- the pods hold that are on such a node and are not over, and 0 where that is negative. Of a pod
-- only the one resource counts that is counted for its node: the AMD one where the node
-- advertises any of it, else the NVIDIA one.
pub availability-free :
    (nodes : List Node) (pods : List Pod) (sel : Labels)
    → HasValues sel
    → (availability_for_selector nodes pods sel).found ≡ true
    → (availability_for_selector nodes pods sel).free
      ≡ advertised sel nodes - held_by_pods sel nodes pods
unfolding availability_for_selector
availability-free nodes pods [] v h = absurd (true≢false (sym h))
availability-free nodes pods (e ∷ sel) v h =
    let s = scan_nodes (selected (e ∷ sel)) nodes scan_start in
    let placed =
      ap (λ ns. sum (map node_gpus ns)) (keep_cong nodes (λ n. selected-can_place (e ∷ sel) n v)) in
    omega (
      arith,
      finish_scan-free pods s h,
      scan_nodes-total (selected (e ∷ sel)) nodes scan_start,
      placed,
      used_gpus-held (e ∷ sel) nodes pods v,
    )
