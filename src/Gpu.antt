-- ===== src/Gpu.antt =====
-- internal/gpu/offering.go: which GPUs the nodes of a cluster offer, and how many are free.
pub mod Availability
pub mod Offerings
pub mod Placeable
pub mod Gate
pub mod Free
pub mod Inventory
use exalsius_operator.Prelude.{ℕ, zero, ◌+◌, ◌-◌, Text, bytes, List, Bool, true, false, ◌∷◌, []}
use exalsius_operator.Prelude.{text_eq, not, ◌&&◌, ◌==◌, ltb, any, lookup, insert, merge, label}
use exalsius_operator.Prelude.{Option, none, some, is_empty, if◌then◌else◌, ◌++◌}
use exalsius_operator.Kube.{Node, Pod, Labels, Resources, node_is_schedulable, pod_consumes, amount}

abbrev pub default_model_label : Text
default_model_label = bytes "exalsius.ai/gpu-model"

abbrev pub default_vendor_label : Text
default_vendor_label = bytes "exalsius.ai/gpu-vendor"

abbrev pub resource_nvidia_gpu : Text
resource_nvidia_gpu = bytes "nvidia.com/gpu"

abbrev pub resource_amd_gpu : Text
resource_amd_gpu = bytes "amd.com/gpu"

abbrev pub vendor_nvidia : Text
vendor_nvidia = bytes "NVIDIA"

abbrev pub vendor_amd : Text
vendor_amd = bytes "AMD"

-- Each supported resource with its vendor. The source's type of vendors is a string.
pub record VendorResource : Type 0 where
  pub vendor : Text
  pub resource_name : Text

abbrev pub vendor_resources : List VendorResource
vendor_resources =
    record { vendor = vendor_nvidia; resource_name = resource_nvidia_gpu }
    ∷ record { vendor = vendor_amd; resource_name = resource_amd_gpu }
    ∷ []

resource_for : List VendorResource → Text → Text
resource_for [] v = []
resource_for (vr ∷ vrs) v = if text_eq vr.vendor v then vr.resource_name else resource_for vrs v

unfoldable pub resource_for_vendor : Text → Text
unfolding resource_for
resource_for_vendor = resource_for vendor_resources

-- The product labels of a vendor, in the order of preference.
abbrev default_product_labels : List (Text × List Text)
default_product_labels =
    (vendor_nvidia, bytes "nvidia.com/gpu.product" ∷ [])
    ∷ (vendor_amd, bytes "amd.com/gpu.product-name" ∷ bytes "amd.com/gpu.device-id" ∷ [])
    ∷ []

-- `Options`; an unset `ProductLabels` is `none`.
pub record Options : Type 0 where
  pub model_label : Text
  pub vendor_label : Text
  pub product_labels : Option (List (Text × List Text))

abbrev pub default_options : Options
default_options = record { model_label = []; vendor_label = []; product_labels = none }

unfoldable pub model_label_of : Options → Text
model_label_of o = if is_empty o.model_label then default_model_label else o.model_label

unfoldable pub vendor_label_of : Options → Text
vendor_label_of o = if is_empty o.vendor_label then default_vendor_label else o.vendor_label

abbrev keys_or_nil : Option (List Text) → List Text
keys_or_nil none = []
keys_or_nil (some keys) = keys

unfoldable pub product_labels_of : Options → Text → List Text
product_labels_of o vendor = elim o.product_labels [
  | none ↦ keys_or_nil (lookup vendor default_product_labels)
  | some m ↦ keys_or_nil (lookup vendor m)
]

-- Selection by labels. Every entry of the selector has to match.
unfoldable pub node_matches_selector : Node → Labels → Bool
node_matches_selector n [] = true
node_matches_selector n ((k, v) ∷ sel) = text_eq (label k n.labels) v && node_matches_selector n sel

abbrev pub first_product : Node → List Text → Text × Labels
first_product n [] = ([], [])
first_product n (k ∷ ks) =
    let rest = first_product n ks in
    if is_empty (label k n.labels) then rest else (label k n.labels, (k, label k n.labels) ∷ [])

-- The model of a node's GPUs and the selector that reproduces it; the empty selector is `nil`.
unfoldable pub resolve_model_selector : Node → Text → List Text → Text × Labels
resolve_model_selector n model_label product_keys =
    let m = label model_label n.labels in
    if is_empty m then first_product n product_keys else (m, (model_label, m) ∷ [])

unfoldable pub node_selector_for_model : Text → Options → Labels
node_selector_for_model model o = (model_label_of o, model) ∷ []

unfoldable pub build_selector : Text → Labels → Options → Labels
build_selector model raw o =
    merge (if is_empty model then [] else (model_label_of o, model) ∷ []) raw
