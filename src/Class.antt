-- ===== src/Class.antt =====
-- The workspace class controller (internal/controller/workspaces/workspaceclass_controller.go) with
-- validateInjectionPaths of inject.go: whether the catalogue entry can be deployed. The order in which
-- Go ranges over the map of the fields is a parameter, as is the text of an error.
pub mod Validity
use exalsius_operator.Inject.{ResourceField, ResourceInjectionMap}
use exalsius_operator.InjectPath.{PathError, Parsed, parse_path, segments, malformed}
use exalsius_operator.Kube.{Fetched, get_failed, found, not_found}
use exalsius_operator.Prelude.{
  ℕ, Bool, true, false, not, ◌&&◌, Option, none, some, List, [], ◌∷◌, Text, bytes, text_eq,
  is_empty, ◌==◌, if◌then◌else◌,
}

-- A ServiceTemplate as it is read.
pub record Template : Type 0 where
  pub valid : Bool
  pub validation_error : Text

-- The errors whose text is formatted.
pub data Problem : Type 0 where
  template_not_found template_unread : Text → Text → Problem
  bad_path : ResourceField → Text → PathError → Problem

pub record ClassStatus : Type 0 where
  pub valid : Bool
  pub validation_error : Text
  pub observed_generation : ℕ

pub record Class : Type 0 where
  pub name : Text
  pub template_name : Text
  pub template_namespace : Text
  pub resource_injection : Option ResourceInjectionMap
  pub generation : ℕ
  pub status : ClassStatus

abbrev pub system_namespace : Text
system_namespace = bytes "kcm-system"

abbrev pub source_not_valid_message : Text
source_not_valid_message = bytes "ServiceTemplate is not valid"

unfoldable pub namespace_of : Class → Text
namespace_of c = if is_empty c.template_namespace then system_namespace else c.template_namespace

abbrev pub problem_of : ResourceField → Text → Parsed → Option Problem
problem_of f p (segments segs) = none
problem_of f p (malformed e) = some (bad_path f p e)

-- The first malformed path of a field
unfoldable pub validate_paths : ResourceField → List Text → Option Problem
validate_paths f [] = none
validate_paths f (p ∷ ps) = elim (problem_of f p (parse_path p)) [
  | none ↦ validate_paths f ps
  | some e ↦ some e
]

unfoldable pub validate_fields : ResourceInjectionMap → List ResourceField → Option Problem
validate_fields m [] = none
validate_fields m (f ∷ fs) = elim (validate_paths f (m f)) [
  | none ↦ validate_fields m fs
  | some e ↦ some e
]

-- validateInjectionPaths
unfoldable pub validate_injection_paths :
    List ResourceField → Option ResourceInjectionMap → Option Problem
validate_injection_paths order none = none
validate_injection_paths order (some m) = validate_fields m order

abbrev pub same_flag : Bool → Bool → Bool
same_flag true b = b
same_flag false b = not b

module _ (say : Problem → Text) where
  abbrev pub verdict_of : Option Problem → Bool × Text
  verdict_of none = (true, [])
  verdict_of (some e) = (false, say e)

  -- evaluate, of the template as it is read
  unfoldable pub evaluate : List ResourceField → Fetched Template → Class → Bool × Text
  evaluate order (found t) c =
      if t.valid then verdict_of (validate_injection_paths order c.resource_injection) else (
        false,
        if is_empty t.validation_error then source_not_valid_message else t.validation_error,
      )
  evaluate order not_found c = (false, say (template_not_found (namespace_of c) c.template_name))
  evaluate order get_failed c = (false, say (template_unread (namespace_of c) c.template_name))

  -- The status that the controller wants
  unfoldable pub wanted_status : List ResourceField → Fetched Template → Class → ClassStatus
  wanted_status order t c =
      let v = evaluate order t c in
      record { valid = v.0; validation_error = v.1; observed_generation = c.generation }

  -- Reconcile: the status that is written, or nothing where the status is that already
  unfoldable pub reconcile_class :
      List ResourceField → Fetched Template → Class → Option ClassStatus
  reconcile_class order t c =
      let s = wanted_status order t c in
      if same_flag c.status.valid s.valid
        && (text_eq c.status.validation_error s.validation_error
            && c.status.observed_generation == s.observed_generation)
      then none
      else some s

-- workspaceClassesForServiceTemplate, of a listing that may fail: the names of the classes
unfoldable pub refers_to : Text → Text → Class → Bool
refers_to name namespace c = text_eq c.template_name name && text_eq (namespace_of c) namespace

unfoldable pub classes_for_template : Text → Text → List Class → List Text
classes_for_template name namespace [] = []
classes_for_template name namespace (c ∷ cs) =
    let rest = classes_for_template name namespace cs in
    if refers_to name namespace c then c.name ∷ rest else rest

unfoldable pub workspace_classes_for_service_template :
    Text → Text → Option (List Class) → List Text
workspace_classes_for_service_template name namespace none = []
workspace_classes_for_service_template name namespace (some cs) =
    classes_for_template name namespace cs
