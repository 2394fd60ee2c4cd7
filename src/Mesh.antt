-- ===== src/Mesh.antt =====
-- The mesh labels of internal/controller/workspaces/routing/naming.go, and the namespace of a
-- workspace on its child cluster (internal/controller/workspaces/namespace.go).
pub mod Laws
use exalsius_operator.Kube.{Labels, Fetched, not_found, get_failed, found}
use exalsius_operator.Naming.{waypoint_name}
use exalsius_operator.Prelude.{
  ℕ, Bool, true, false, Option, none, some, [], ◌∷◌, ◌++◌, Text, bytes, text_eq, is_empty, insert,
  merge, label, if◌then◌else◌,
}
use exalsius_operator.Workspace.Conditions.{updated}

pub data MeshMode : Type 0 where
  ambient sidecar no_mesh : MeshMode

pub record WaypointConfig : Type 0 where
  pub name : Text
  pub namespace : Text

pub record MeshConfig : Type 0 where
  pub mode : MeshMode
  pub waypoint_enabled : Bool
  pub waypoint_namespace : Text

-- MeshNamespaceLabels
unfoldable pub mesh_namespace_labels : MeshMode → WaypointConfig → Labels
mesh_namespace_labels ambient wp =
    let mode = (bytes "istio.io/dataplane-mode", bytes "ambient") ∷ [] in
    if is_empty wp.name
    then mode
    else mode
      ++ ((bytes "istio.io/use-waypoint", wp.name)
          ∷ (bytes "istio.io/use-waypoint-namespace", wp.namespace)
          ∷ (bytes "istio.io/ingress-use-waypoint", bytes "true")
          ∷ [])
mesh_namespace_labels sidecar wp = (bytes "istio-injection", bytes "enabled") ∷ []
mesh_namespace_labels no_mesh wp = []

abbrev pub no_waypoint : WaypointConfig
no_waypoint = record { name = []; namespace = [] }

-- MirrorNamespaceLabels
unfoldable pub mirror_namespace_labels : MeshConfig → Labels
mirror_namespace_labels c = mesh_namespace_labels c.mode no_waypoint

-- NamespaceLabels
unfoldable pub namespace_labels : (ℕ → Text → Text) → MeshConfig → Text → Labels
namespace_labels hex c cd_name = mesh_namespace_labels c.mode (
    if c.waypoint_enabled
    then record { name = waypoint_name hex cd_name; namespace = c.waypoint_namespace }
    else no_waypoint)

abbrev pub label_workspace : Text
label_workspace = bytes "workspaces.exalsius.ai/workspace"

-- workspaceNamespaceLabels
unfoldable pub workspace_namespace_labels : Text → Labels → Labels
workspace_namespace_labels workspace_name mesh_labels =
    merge ((label_workspace, workspace_name) ∷ []) mesh_labels

-- applyMissingLabels: the labels of the object, and whether one was changed
unfoldable pub apply_missing_labels : Labels → Labels → Labels × Bool
apply_missing_labels labels [] = (labels, false)
apply_missing_labels labels ((k, v) ∷ desired) =
    let (rest, changed) = apply_missing_labels labels desired in
    if text_eq (label k rest) v then (rest, changed) else (insert k v rest, true)

-- A namespace of the child cluster, as far as it is read.
pub record Namespace : Type 0 where
  pub labels : Labels
  pub deleting : Bool

-- The answer to a create.
pub data Created : Type 0 where
  created already_exists create_failed : Created

-- What the ensuring of a namespace ends with, and the labels that were written, if any.
pub data Readiness : Type 0 where
  ready not_ready ensure_error : Readiness

-- ensureWorkspaceNamespace, given the answers to its three calls
unfoldable pub ensure_workspace_namespace :
    Labels → Fetched Namespace → Created → Bool → Readiness × Option Labels
ensure_workspace_namespace desired (found ns) creation updated =
    if ns.deleting
    then (not_ready, none)
    else (let (labels, changed) = apply_missing_labels ns.labels desired in
        if changed then (if updated then ready else ensure_error, some labels) else (ready, none))
ensure_workspace_namespace desired not_found created updated = (ready, some desired)
ensure_workspace_namespace desired not_found already_exists updated = (not_ready, some desired)
ensure_workspace_namespace desired not_found create_failed updated = (ensure_error, some desired)
ensure_workspace_namespace desired get_failed creation updated = (ensure_error, none)
