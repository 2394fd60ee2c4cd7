-- ===== src/Gpu/Availability.antt =====
-- internal/gpu/offering.go: AvailabilityForSelector and AvailableForModel. The loops over the
-- nodes, over the vendor resources of a node and over the pods are recursions on the lists.
use exalsius_operator.Prelude.{
  ℕ, ◌+◌, ◌-◌, Text, List, Bool, true, false, ◌∷◌, [], text_eq, ◌&&◌, ltb, lookup, insert, label,
  none, some, is_empty, if◌then◌else◌,
}
use exalsius_operator.Kube.{Node, Pod, Labels, Resources, node_is_schedulable, pod_consumes, amount}
use exalsius_operator.Gpu.{
  VendorResource, vendor_resources, Options, model_label_of, node_matches_selector,
}

pub record SelectorAvailability : Type 0 where
  pub found : Bool
  pub free : ℕ
  pub resource_name : Text
  pub vendor : Text

-- The variables of the first loop: the matched nodes with their resource, and the sum so far.
pub record Scan : Type 0 where
  pub matched : List (Text × Text)
  pub total : ℕ
  pub sa : SelectorAvailability

abbrev pub nothing : SelectorAvailability
nothing = record { found = false; free = 0; resource_name = []; vendor = [] }

abbrev pub scan_start : Scan
scan_start = record { matched = []; total = 0; sa = nothing }

-- `found`, and the resource and vendor unless they are set already
abbrev note_resource : VendorResource → SelectorAvailability → SelectorAvailability
note_resource vr sa =
    if is_empty sa.resource_name
    then record sa { found = true; resource_name = vr.resource_name; vendor = vr.vendor }
    else record sa { found = true }

-- One round of `for _, vr := range vendorResources`.
unfoldable pub scan_resource : Node → VendorResource → Scan → Scan
scan_resource n vr s =
    let c = amount vr.resource_name n.allocatable in
    if ltb 0 c
    then record {
      matched = insert n.name vr.resource_name s.matched;
      total = s.total + c;
      sa = note_resource vr s.sa;
    }
    else s

unfoldable pub scan_resources : Node → List VendorResource → Scan → Scan
scan_resources n [] s = s
scan_resources n (vr ∷ vrs) s = scan_resources n vrs (scan_resource n vr s)

-- The node loop, over the nodes that pass `eligible`.
unfoldable pub scan_nodes : (Node → Bool) → List Node → Scan → Scan
scan_nodes eligible [] s = s
scan_nodes eligible (n ∷ ns) s =
    scan_nodes eligible ns (if eligible n then scan_resources n vendor_resources s else s)

unfoldable pub container_sum : Text → List Resources → ℕ
container_sum k [] = 0
container_sum k (c ∷ cs) = amount k c + container_sum k cs

-- The GPUs that one pod holds on the matched nodes.
unfoldable pub pod_use : List (Text × Text) → Pod → ℕ
pod_use matched p = elim (lookup p.node_name matched) [
  | none ↦ 0
  | some r ↦ if pod_consumes p then container_sum r p.containers else 0
]

unfoldable pub used_gpus : List (Text × Text) → List Pod → ℕ
used_gpus matched [] = 0
used_gpus matched (p ∷ ps) = pod_use matched p + used_gpus matched ps

unfoldable pub selected : Labels → Node → Bool
selected sel n = node_is_schedulable n && node_matches_selector n sel

-- `free = total - used`, and 0 where that is negative
unfoldable pub finish_scan : List Pod → Scan → SelectorAvailability
finish_scan pods s =
    if s.sa.found then record s.sa { free = s.total - used_gpus s.matched pods } else s.sa

unfoldable pub availability_for_selector : List Node → List Pod → Labels → SelectorAvailability
unfolding finish_scan
availability_for_selector nodes pods [] = nothing
availability_for_selector nodes pods (e ∷ sel) =
    finish_scan pods (scan_nodes (selected (e ∷ sel)) nodes scan_start)

-- AvailableForModel has a node loop of its own, with the same variables but no vendor.
pub record ModelScan : Type 0 where
  pub matched : List (Text × Text)
  pub total : ℕ
  pub found : Bool

unfoldable pub model_resource : Node → VendorResource → ModelScan → ModelScan
model_resource n vr s =
    let c = amount vr.resource_name n.allocatable in
    if ltb 0 c
    then record {
      matched = insert n.name vr.resource_name s.matched;
      total = s.total + c;
      found = true;
    }
    else s

unfoldable pub model_resources : Node → List VendorResource → ModelScan → ModelScan
model_resources n [] s = s
model_resources n (vr ∷ vrs) s = model_resources n vrs (model_resource n vr s)

unfoldable pub model_nodes : Text → Text → List Node → ModelScan → ModelScan
model_nodes key model [] s = s
model_nodes key model (n ∷ ns) s = model_nodes key model ns (
    if node_is_schedulable n && text_eq (label key n.labels) model
    then model_resources n vendor_resources s
    else s)

-- The pair of `free` and `found`.
unfoldable pub available_for_model : List Node → List Pod → Text → Options → ℕ × Bool
available_for_model nodes pods model o =
    let s =
      model_nodes (model_label_of o) model nodes
        (record { matched = []; total = 0; found = false }) in
    if s.found then (s.total - used_gpus s.matched pods, true) else (0, false)
