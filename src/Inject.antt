-- ===== src/Inject.antt =====
-- internal/controller/workspaces/inject.go: the resolved resources, the node selector and the GPU
-- resource name are written into the Helm values.
pub mod Laws
use mathlib.Core.Option
use exalsius_operator.InjectPath.{parse_path, malformed, segments, Parsed}
use exalsius_operator.Kube.{Labels}
use exalsius_operator.Prelude.{
  Option, none, some, List, [], ◌∷◌, ◌++◌, map, Text, bytes, if◌then◌else◌,
}
use exalsius_operator.Resources.{WorkspaceResourceSpec}
use exalsius_operator.Values.{
  Value, Fields, get, put, enter, set_nested_value, object, int64, end, text,
}

-- The names of the fields, in the order in which they are injected.
pub data ResourceField : Type 0 where
  replicas cpu memory storage gpu_count gpu_vendor gpu_type : ResourceField

abbrev pub resource_fields : List ResourceField
resource_fields = replicas ∷ cpu ∷ memory ∷ storage ∷ gpu_count ∷ gpu_vendor ∷ gpu_type ∷ []

abbrev pub field_name : ResourceField → Text
field_name replicas = bytes "replicas"
field_name cpu = bytes "cpu"
field_name memory = bytes "memory"
field_name storage = bytes "storage"
field_name gpu_count = bytes "gpuCount"
field_name gpu_vendor = bytes "gpuVendor"
field_name gpu_type = bytes "gpuType"

abbrev pub exalsius_values_key : Text
exalsius_values_key = bytes "_exalsius"

abbrev pub key_resources : Text
key_resources = bytes "resources"

abbrev pub key_per_replica : Text
key_per_replica = bytes "perReplica"

-- `ResourceInjectionMap`: a list of paths for each field.
abbrev pub ResourceInjectionMap : Type 0
ResourceInjectionMap = ResourceField → List Text

pub record Warning : Type 0 where
  pub path : Text
  pub field : ResourceField

-- `show` stands for `Quantity.String()`.
module _ {Q : Type 0} (show : Q → Text) where
  -- The value of a field, if the resolved resources have it.
  unfoldable pub field_value : WorkspaceResourceSpec Q → ResourceField → Option Value
  field_value r replicas = Option.map int64 r.replicas
  field_value r cpu = Option.map (λ q. text (show q)) r.per_replica.cpu
  field_value r memory = Option.map (λ q. text (show q)) r.per_replica.memory
  field_value r storage = Option.map (λ q. text (show q)) r.per_replica.storage
  field_value r gpu_count = Option.map int64 r.per_replica.gpu_count
  field_value r gpu_vendor = Option.map text r.per_replica.gpu_vendor
  field_value r gpu_type = Option.map text r.per_replica.gpu_type

  -- `entries`: the fields that have a value
  unfoldable pub entries_of :
      WorkspaceResourceSpec Q → List ResourceField → List (ResourceField × Value)
  entries_of r [] = []
  entries_of r (f ∷ fs) = elim (field_value r f) [
    | none ↦ entries_of r fs
    | some v ↦ (f, v) ∷ entries_of r fs
  ]

-- The loop over the entries: the replica count goes to one node, the others to its child.
unfoldable pub put_entries : List (ResourceField × Value) → Fields → Fields → Fields × Fields
put_entries [] resources per_replica = (resources, per_replica)
put_entries ((replicas, v) ∷ es) resources per_replica =
    put_entries es (put (field_name replicas) v resources) per_replica
put_entries ((f, v) ∷ es) resources per_replica =
    put_entries es resources (put (field_name f) v per_replica)

-- The three nodes below the root are entered or made, filled, and hang in the tree again.
unfoldable pub inject_standard : Fields → List (ResourceField × Value) → Fields
inject_standard values es =
    let exalsius = (enter (get exalsius_values_key values)).0 in
    let resources = (enter (get key_resources exalsius)).0 in
    let per_replica = (enter (get key_per_replica resources)).0 in
    let (resources', per_replica') =
      put_entries es (put key_per_replica (object per_replica) resources) per_replica in
    put exalsius_values_key
      (object (
        put key_resources (object (put key_per_replica (object per_replica') resources')) exalsius))
      values

-- One path of a field: a path that does not parse is skipped with a warning.
unfoldable pub inject_path :
    ResourceField → Value → Text → Parsed → Fields → List Warning → Fields × List Warning
inject_path f v p (malformed e) values warnings =
    (values, warnings ++ record { path = p; field = f } ∷ [])
inject_path f v p (segments segs) values warnings =
    let w = set_nested_value values segs v in
    (w.fields, if w.overwritten then warnings ++ record { path = p; field = f } ∷ [] else warnings)

unfoldable pub inject_paths :
    ResourceField → Value → List Text → Fields → List Warning → Fields × List Warning
inject_paths f v [] values warnings = (values, warnings)
inject_paths f v (p ∷ ps) values warnings =
    let (values', warnings') = inject_path f v p (parse_path p) values warnings in
    inject_paths f v ps values' warnings'

unfoldable pub inject_additional :
    ResourceInjectionMap
    → List (ResourceField × Value)
    → Fields
    → List Warning
    → Fields × List Warning
inject_additional im [] values warnings = (values, warnings)
inject_additional im ((f, v) ∷ es) values warnings =
    let (values', warnings') = inject_paths f v (im f) values warnings in
    inject_additional im es values' warnings'

module _ {Q : Type 0} (show : Q → Text) where
  -- injectResources
  unfoldable pub inject_resources :
      Fields → WorkspaceResourceSpec Q → Option ResourceInjectionMap → Fields × List Warning
  inject_resources values r im =
      let es = entries_of show r resource_fields in
      let injected = inject_standard values es in
      elim im [ none ↦ (injected, []) | some m ↦ inject_additional m es injected [] ]

abbrev pub key_scheduling : Text
key_scheduling = bytes "scheduling"

abbrev pub key_node_selector : Text
key_node_selector = bytes "nodeSelector"

abbrev pub key_gpu_resource_name : Text
key_gpu_resource_name = bytes "gpuResourceName"

unfoldable pub label_fields : Labels → Fields
label_fields [] = end
label_fields ((k, v) ∷ m) = put k (text v) (label_fields m)

unfoldable pub inject_node_selector : Fields → Labels → Fields
inject_node_selector values [] = values
inject_node_selector values (e ∷ sel) =
    (set_nested_value values (exalsius_values_key ∷ key_scheduling ∷ key_node_selector ∷ [])
      (object (label_fields (e ∷ sel)))).fields

unfoldable pub inject_gpu_resource_name : Fields → Text → Fields
inject_gpu_resource_name values [] = values
inject_gpu_resource_name values (c ∷ name) =
    (set_nested_value values
      (exalsius_values_key ∷ key_resources ∷ key_per_replica ∷ key_gpu_resource_name ∷ [])
      (text (c ∷ name))).fields
