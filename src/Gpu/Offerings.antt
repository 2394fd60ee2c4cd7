-- ===== src/Gpu/Offerings.antt =====
-- internal/gpu/offering.go: DeriveOfferings, the GPU inventory of a cluster. `byKey` is a list of
-- pairs in the order of insertion; Go iterates its map in any order before the sort.
use exalsius_operator.Prelude.{
  ℕ, ◌+◌, ◌++◌, Text, bytes, List, Bool, ◌∷◌, [], text_eq, text_ltb, has_prefix, ◌&&◌, ltb, any,
  keep, label, Option, none, some, is_empty, if◌then◌else◌,
}
use exalsius_operator.Kube.{Node, Labels, node_is_schedulable, amount}
use exalsius_operator.Gpu.{
  VendorResource, vendor_resources, Options, model_label_of, vendor_label_of, product_labels_of,
  resolve_model_selector,
}

pub record Offering : Type 0 where
  pub vendor : Text
  pub model : Text
  pub profile : Text
  pub resource_name : Text
  pub total : ℕ
  pub nodes : ℕ
  pub selector : Labels
  pub labels : Labels

pub record OfferingKey : Type 0 where
  pub vendor : Text
  pub profile : Text
  pub resource_name : Text
  pub selector : Text

unfoldable pub key_eq : OfferingKey → OfferingKey → Bool
key_eq a b =
    text_eq a.vendor b.vendor
    && text_eq a.profile b.profile
    && text_eq a.resource_name b.resource_name
    && text_eq a.selector b.selector

-- `sort.Strings` on the keys, kept with their values
insert_entry : Text → Text → Labels → Labels
insert_entry k v [] = (k, v) ∷ []
insert_entry k v ((j, w) ∷ m) =
    if text_ltb j k then (j, w) ∷ insert_entry k v m else (k, v) ∷ (j, w) ∷ m

sort_entries : Labels → Labels
unfolding insert_entry
sort_entries [] = []
sort_entries ((k, v) ∷ m) = insert_entry k v (sort_entries m)

write_entries : Labels → Text
write_entries [] = []
write_entries ((k, v) ∷ m) = k ++ (bytes "=" ++ (v ++ (bytes ";" ++ write_entries m)))

unfoldable pub selector_identity : Labels → Text
unfolding sort_entries write_entries
selector_identity sel = write_entries (sort_entries sel)

abbrev gpu_label_prefixes : List Text
gpu_label_prefixes =
    bytes "nvidia.com/" ∷ bytes "amd.com/" ∷ bytes "gpu.hami.io/" ∷ bytes "exalsius.ai/gpu" ∷ []

is_gpu_label : Text × Text → Bool
is_gpu_label (k, v) = any (has_prefix k) gpu_label_prefixes

unfoldable pub gpu_labels : Node → Labels
unfolding is_gpu_label
gpu_labels n = keep is_gpu_label n.labels

abbrev pub Inventory : Type 0
Inventory = List (OfferingKey × Offering)

-- `o := byKey[key]`, made from `fresh` if it is nil, then `o.Total += count; o.Nodes++`
unfoldable pub add_count : OfferingKey → Offering → ℕ → Inventory → Inventory
add_count key fresh count [] =
    (key, record fresh { total = fresh.total + count; nodes = fresh.nodes + 1 }) ∷ []
add_count key fresh count ((j, o) ∷ inv) =
    if key_eq j key
    then (j, record o { total = o.total + count; nodes = o.nodes + 1 }) ∷ inv
    else (j, o) ∷ add_count key fresh count inv

unfoldable pub offering_vendor : Options → Node → VendorResource → Text
offering_vendor o n vr =
    let v = label (vendor_label_of o) n.labels in if is_empty v then vr.vendor else v

unfoldable pub fresh_offering : Options → Node → VendorResource → Offering
fresh_offering o n vr =
    let vendor = offering_vendor o n vr in
    let (model, selector) =
      resolve_model_selector n (model_label_of o) (product_labels_of o vendor) in
    record {
      vendor = vendor;
      model = model;
      profile = [];
      resource_name = vr.resource_name;
      total = 0;
      nodes = 0;
      selector = selector;
      labels = gpu_labels n;
    }

unfoldable pub offering_key : Offering → OfferingKey
offering_key o = record {
  vendor = o.vendor;
  profile = o.profile;
  resource_name = o.resource_name;
  selector = selector_identity o.selector;
}

-- One round of the loop over the vendor resources.
unfoldable pub offer_resource : Options → Node → VendorResource → Inventory → Inventory
offer_resource o n vr inv =
    let fresh = fresh_offering o n vr in
    let count = amount vr.resource_name n.allocatable in
    if ltb 0 count then add_count (offering_key fresh) fresh count inv else inv

unfoldable pub offer_resources : Options → Node → List VendorResource → Inventory → Inventory
offer_resources o n [] inv = inv
offer_resources o n (vr ∷ vrs) inv = offer_resources o n vrs (offer_resource o n vr inv)

unfoldable pub offer_nodes : Options → List Node → Inventory → Inventory
offer_nodes o [] inv = inv
offer_nodes o (n ∷ ns) inv =
    offer_nodes o ns
      (if node_is_schedulable n then offer_resources o n vendor_resources inv else inv)

-- The order of `sort.Slice`: by model, then by resource.
unfoldable pub offering_less : Offering → Offering → Bool
offering_less a b =
    if text_eq a.model b.model
    then text_ltb a.resource_name b.resource_name
    else text_ltb a.model b.model

unfoldable pub insert_offering : Offering → List Offering → List Offering
insert_offering o [] = o ∷ []
insert_offering o (p ∷ ps) = if offering_less p o then p ∷ insert_offering o ps else o ∷ p ∷ ps

unfoldable pub sort_offerings : List (OfferingKey × Offering) → List Offering
sort_offerings [] = []
sort_offerings ((k, o) ∷ inv) = insert_offering o (sort_offerings inv)

unfoldable pub derive_offerings : List Node → Options → List Offering
derive_offerings nodes o = sort_offerings (offer_nodes o nodes [])

unfoldable pub find_by_model : List Offering → Text → Option Offering
find_by_model [] model = none
find_by_model (o ∷ os) model = if text_eq o.model model then some o else find_by_model os model
