-- ===== src/Run/ConditionType.antt =====
-- The condition types of api/workspaces/v1/workspacedeployment_types.go.
use exalsius_operator.Prelude.{Text, bytes}

abbrev pub ready : Text
ready = bytes "Ready"

abbrev pub class_resolved : Text
class_resolved = bytes "ClassResolved"

abbrev pub prerequisites_met : Text
prerequisites_met = bytes "PrerequisitesMet"

abbrev pub helm_release_ready : Text
helm_release_ready = bytes "HelmReleaseReady"

abbrev pub cluster_deployment_resolved : Text
cluster_deployment_resolved = bytes "ClusterDeploymentResolved"

abbrev pub routes_ready : Text
routes_ready = bytes "RoutesReady"

abbrev pub feasible : Text
feasible = bytes "Feasible"

abbrev pub resources_injected : Text
resources_injected = bytes "ResourcesInjected"
