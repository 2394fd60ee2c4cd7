-- ===== src/Gpu/Gate.antt =====
-- What the availability scan decides: the gate of the workspace controller rests on it.
use exalsius_operator.Prelude.{
  ℕ, ◌+◌, ◌-◌, ◌≡◌, refl, Text, List, Bool, true, false, ◌∷◌, [], ◌&&◌, ◌||◌, ltb, any, text_eq,
  label, if◌then◌else◌, arith, ◌≢◌, keep, sum, map, ap, ◌∙◌,
}
use exalsius_operator.Kube.{Node, Pod, Labels, node_is_schedulable, amount}
use exalsius_operator.Gpu.{
  VendorResource, vendor_resources, Options, model_label_of, node_matches_selector,
  node_selector_for_model,
}
use exalsius_operator.Gpu.Availability.{
  Scan, ModelScan, scan_start, scan_resource, scan_resources, scan_nodes, selected, finish_scan,
  availability_for_selector, model_resource, model_resources, model_nodes, available_for_model,
  used_gpus,
}
use exalsius_operator.Gpu.Placeable.{can_place, HasValues, any_cong, selected-can_place}

-- The node advertises a GPU of a supported vendor.
unfoldable pub has_gpu : Node → Bool
has_gpu n = any (λ vr. ltb 0 (amount vr.resource_name n.allocatable)) vendor_resources

-- The GPUs that the node advertises, over both vendors.
unfoldable pub node_gpus : Node → ℕ
node_gpus n = sum (map (λ vr. amount vr.resource_name n.allocatable) vendor_resources)

scan_resource-found :
    (n : Node) (vr : VendorResource) (s : Scan)
    → (scan_resource n vr s).sa.found
      ≡ (s.sa.found || ltb 0 (amount vr.resource_name n.allocatable))
unfolding scan_resource
scan_resource-found n vr s = ground arith

scan_resources-found :
    (n : Node) (vrs : List VendorResource) (s : Scan)
    → (scan_resources n vrs s).sa.found
      ≡ (s.sa.found || any (λ vr. ltb 0 (amount vr.resource_name n.allocatable)) vrs)
unfolding scan_resources
scan_resources-found n [] s = ground arith
scan_resources-found n (vr ∷ vrs) s =
    ground (arith, scan_resources-found n vrs (scan_resource n vr s), scan_resource-found n vr s)

scan_nodes-found :
    (ok : Node → Bool) (ns : List Node) (s : Scan)
    → (scan_nodes ok ns s).sa.found ≡ (s.sa.found || any (λ n. ok n && has_gpu n) ns)
unfolding scan_nodes has_gpu
scan_nodes-found ok [] s = ground arith
scan_nodes-found ok (n ∷ ns) s = ground (
  arith,
  scan_nodes-found ok ns (if ok n then scan_resources n vendor_resources s else s),
  scan_resources-found n vendor_resources s,
)

-- The scan by a selector with an entry, in the words of its own test of a node.
pub selector-found :
    (nodes : List Node) (pods : List Pod) (sel : Labels)
    → sel ≢ []
    → (availability_for_selector nodes pods sel).found
      ≡ any (λ n. selected sel n && has_gpu n) nodes
unfolding availability_for_selector
selector-found nodes pods [] h = absurd (h refl)
selector-found nodes pods (e ∷ sel) h =
    ground (arith, scan_nodes-found (selected (e ∷ sel)) nodes scan_start)

-- For a selector with entries, all with a value, the scan finds GPUs exactly if there is a node on
-- which a pod with that node selector can be placed and that advertises a GPU: the node is not
-- cordoned, its condition Ready is true or absent, and it has every label of the selector.
pub availability-found :
    (nodes : List Node) (pods : List Pod) (sel : Labels)
    → sel ≢ []
    → HasValues sel
    → (availability_for_selector nodes pods sel).found
      ≡ any (λ n. can_place sel n && has_gpu n) nodes
availability-found nodes pods sel h v =
    selector-found nodes pods sel h
    ∙ any_cong nodes (λ n. ap (λ b. b && has_gpu n) (selected-can_place sel n v))

scan_resource-total :
    (n : Node) (vr : VendorResource) (s : Scan)
    → (scan_resource n vr s).total ≡ s.total + amount vr.resource_name n.allocatable
unfolding scan_resource
scan_resource-total n vr s = ground arith

scan_resources-total :
    (n : Node) (vrs : List VendorResource) (s : Scan)
    → (scan_resources n vrs s).total
      ≡ s.total + sum (map (λ vr. amount vr.resource_name n.allocatable) vrs)
unfolding scan_resources
scan_resources-total n [] s = omega arith
scan_resources-total n (vr ∷ vrs) s =
    omega (arith, scan_resources-total n vrs (scan_resource n vr s), scan_resource-total n vr s)

pub scan_nodes-total :
    (ok : Node → Bool) (ns : List Node) (s : Scan)
    → (scan_nodes ok ns s).total ≡ s.total + sum (map node_gpus (keep ok ns))
unfolding scan_nodes node_gpus
scan_nodes-total ok [] s = omega arith
scan_nodes-total ok (n ∷ ns) s = ground (
  arith,
  scan_nodes-total ok ns (if ok n then scan_resources n vendor_resources s else s),
  scan_resources-total n vendor_resources s,
)

-- The scan by model, and the scan by the model's selector, hold the same matches and sum.
abbrev SameScan : ModelScan → Scan → Type 0
SameScan m s = (m.matched ≡ s.matched) × (m.total ≡ s.total) × (m.found ≡ s.sa.found)

model_resource-same :
    (n : Node) (vr : VendorResource) (m : ModelScan) (s : Scan)
    → SameScan m s
    → SameScan (model_resource n vr m) (scan_resource n vr s)
unfolding model_resource scan_resource
model_resource-same n vr m s h = ground arith

model_resources-same :
    (n : Node) (vrs : List VendorResource) (m : ModelScan) (s : Scan)
    → SameScan m s
    → SameScan (model_resources n vrs m) (scan_resources n vrs s)
unfolding model_resources scan_resources
model_resources-same n [] m s h = h
model_resources-same n (vr ∷ vrs) m s h =
    model_resources-same n vrs (model_resource n vr m) (scan_resource n vr s)
      (model_resource-same n vr m s h)

selected_single :
    (k v : Text) (n : Node)
    → selected ((k, v) ∷ []) n ≡ (node_is_schedulable n && text_eq (label k n.labels) v)
unfolding selected node_matches_selector
selected_single k v n = ground arith

model_nodes-same :
    (k v : Text) (ns : List Node) (m : ModelScan) (s : Scan)
    → SameScan m s
    → SameScan (model_nodes k v ns m) (scan_nodes (selected ((k, v) ∷ [])) ns s)
unfolding model_nodes scan_nodes
model_nodes-same k v [] m s h = h
model_nodes-same k v (n ∷ ns) m s h = ground (
  arith,
  selected_single k v n,
  model_nodes-same k v ns m s h,
  model_nodes-same k v ns (model_resources n vendor_resources m)
      (scan_resources n vendor_resources s) (model_resources-same n vendor_resources m s h),
)

scan_resources-free :
    (n : Node) (vrs : List VendorResource) (s : Scan) → (scan_resources n vrs s).sa.free ≡ s.sa.free
unfolding scan_resources scan_resource
scan_resources-free n [] s = refl
scan_resources-free n (vr ∷ vrs) s =
    ground (arith, scan_resources-free n vrs (scan_resource n vr s))

scan_nodes-free :
    (ok : Node → Bool) (ns : List Node) (s : Scan) → (scan_nodes ok ns s).sa.free ≡ s.sa.free
unfolding scan_nodes
scan_nodes-free ok [] s = refl
scan_nodes-free ok (n ∷ ns) s = ground (
  arith,
  scan_nodes-free ok ns (if ok n then scan_resources n vendor_resources s else s),
  scan_resources-free n vendor_resources s,
)

finish-same :
    (pods : List Pod) (m : ModelScan) (s : Scan)
    → SameScan m s
    → s.sa.free ≡ 0
    → ◌≡◌ {A = ℕ × Bool}
        (if m.found then (m.total - used_gpus m.matched pods, true) else (0, false))
        ((finish_scan pods s).free, (finish_scan pods s).found)
unfolding finish_scan
finish-same pods m s h z = ground arith

-- The count for a model is the count for the selector that the model stands for, on every cluster.
pub available_for_model-selector :
    (nodes : List Node) (pods : List Pod) (model : Text) (o : Options)
    → let sa = availability_for_selector nodes pods (node_selector_for_model model o) in
      available_for_model nodes pods model o ≡ (sa.free, sa.found)
unfolding available_for_model availability_for_selector node_selector_for_model
available_for_model-selector nodes pods model o =
    finish-same pods _ _
      (model_nodes-same (model_label_of o) model nodes
        (record { matched = []; total = 0; found = false }) scan_start (refl, refl, refl))
      (scan_nodes-free (selected (node_selector_for_model model o)) nodes scan_start)
