-- ===== src/Setup.antt =====
-- The steps of the workspace controller before the deployment
-- (internal/controller/workspaces/workspacedeployment_controller.go): the class, the cluster, the
-- feasibility, the GPU gate and the prerequisites.
use exalsius_operator.Run.ConditionType
use exalsius_operator.Feasibility.{FeasibilityStatus, compute_feasibility}
use exalsius_operator.Kube.{
  status_unknown, status_true, found, status_false, not_found, get_failed, Fetched,
}
use exalsius_operator.Mesh.{already_exists, created, create_failed, Created}
use exalsius_operator.Prelude.{
  ℕ, none, some, List, [], ◌∷◌, Text, bytes, if◌then◌else◌, Bool, true, false, Option,
}
use exalsius_operator.Prerequisites.{
  Prerequisite, PrerequisiteStatus, Verdict, evaluate_prerequisites, some_failed, all_satisfied,
  some_installing, evaluated, some_missing, invalid, some_conflict, evaluation_error,
  PrerequisitePhase, prerequisite_pending, prerequisite_installing, ServiceSet, ClusterDeployment,
  Evaluation,
}
use exalsius_operator.Queue.{Gated, gate_gpu_offering}
use exalsius_operator.Resources.{merge_resources}
use exalsius_operator.Run.{
  stop, ◌>>=◌, ◌>>◌, Object, WorkspaceClass, M, pure, done, object_of, modify, perform,
  update_or_fail, try_update, when, set_phase, note, fail_with, requeue_interval, requeue_after,
  create_prerequisite_set, returned_error, returned,
}
use exalsius_operator.Workspace.{installing_prerequisites, phase_pending}
use exalsius_operator.World.{World, PrerequisiteAnswers}
use exalsius_operator.Run.ConditionType.{
  class_resolved, prerequisites_met, cluster_deployment_resolved, feasible,
}

abbrev pub is_pending : PrerequisitePhase → Bool
is_pending prerequisite_pending = true
is_pending _ = false

abbrev pub set_feasibility : FeasibilityStatus → Object → Object
set_feasibility f o = record o { feasibility = some f }

abbrev pub set_gated : Gated ℕ → Object → Object
set_gated g o = record o {
  deployment = record o.deployment { status = g.status; resolved_resources = g.resolved_resources };
}

abbrev pub set_prerequisites : List PrerequisiteStatus → Object → Object
set_prerequisites sts o = record o { prerequisites = sts }

module _ (w : World) where
  -- resolveWorkspaceClass, of the class as it is read
  unfoldable pub resolve_workspace_class : Fetched WorkspaceClass → M WorkspaceClass
  resolve_workspace_class (found c) = pure c
  resolve_workspace_class not_found = do
    fail_with (bytes "ClassNotFound")
    note w.now ConditionType.class_resolved status_false (bytes "ClassNotFound")
    update_or_fail
    stop returned
  resolve_workspace_class get_failed = stop returned_error

  -- resolveClusterDeployment, of the cluster as it is read
  unfoldable pub resolve_cluster_deployment : Fetched ClusterDeployment → M (Unit {0})
  resolve_cluster_deployment (found cd) =
      note w.now ConditionType.cluster_deployment_resolved status_true
        (bytes "ClusterDeploymentResolved")
  resolve_cluster_deployment not_found = do
    modify (set_phase phase_pending)
    note w.now ConditionType.cluster_deployment_resolved status_false
        (bytes "ClusterDeploymentNotFound")
    update_or_fail
    stop (requeue_after requeue_interval)
  resolve_cluster_deployment get_failed = stop returned_error

  unfoldable pub feasibility_unknown : M (Unit {0})
  feasibility_unknown = do
    note w.now ConditionType.feasible status_unknown (bytes "FeasibilityUnknown")
    try_update

  -- The second half of refreshFeasibility.
  unfoldable pub note_feasibility : Option FeasibilityStatus → M (Unit {0})
  note_feasibility none = feasibility_unknown
  note_feasibility (some f) = do
    modify (set_feasibility f)
    note w.now ConditionType.feasible (if f.fits then status_true else status_false)
        (if f.fits then bytes "ResourcesAvailable" else bytes "InsufficientResources")
    update_or_fail

  -- refreshFeasibility; a requeue without an error is not acted on by the caller.
  unfoldable pub refresh_feasibility : WorkspaceClass → M (Unit {0})
  refresh_feasibility c = do
    o ← object_of
    let demanded = merge_resources c.default_resources o.deployment.resources
    if w.regional_client
        then note_feasibility (compute_feasibility demanded w.regional_nodes w.regional_pods)
        else feasibility_unknown

  -- gateGPUOffering on the object
  unfoldable pub gate : WorkspaceClass → M (Unit {0})
  gate c = do
    o ← object_of
    let g =
        gate_gpu_offering c.default_resources o.deployment w.child_client w.nodes w.pods w.siblings
    modify (set_gated g)
    when g.writes try_update
    if g.ok then done else stop (if g.requeues then requeue_after requeue_interval else returned)

  -- The create of ensurePrerequisiteServiceSet; another workspace may have been first.
  unfoldable pub on_creation : Created → M (Unit {0})
  on_creation created = done
  on_creation already_exists = done
  on_creation create_failed = stop returned_error

  -- ensurePrerequisiteServiceSet, of the ServiceSet as it is read
  unfoldable pub ensure_set : Text → PrerequisiteAnswers → Fetched ServiceSet → M (Unit {0})
  ensure_set t a (found ss) = done
  ensure_set t a not_found =
      if a.values_error
      then stop returned_error
      else (perform (create_prerequisite_set t) >> on_creation a.creation)
  ensure_set t a get_failed = stop returned_error

  abbrev pub ensure_prerequisite_service_set : Prerequisite → M (Unit {0})
  ensure_prerequisite_service_set p =
      let a = w.prerequisite_answers p.template in ensure_set p.template a a.existing

  -- One round of the loop of the missing prerequisites: a pending one is installed.
  unfoldable pub install_one : Prerequisite → PrerequisiteStatus → M PrerequisiteStatus
  install_one p st =
      if is_pending st.phase
      then (do
        ensure_prerequisite_service_set p
        pure (record st { phase = prerequisite_installing }))
      else pure st

  unfoldable pub install_missing :
      List Prerequisite → List PrerequisiteStatus → M (List PrerequisiteStatus)
  install_missing [] sts = pure sts
  install_missing (p ∷ ps) [] = pure []
  install_missing (p ∷ ps) (st ∷ sts) = do
    st' ← install_one p st
    rest ← install_missing ps sts
    pure (st' ∷ rest)

  -- A verdict that is terminal.
  unfoldable pub refuse_prerequisites : Text → M (Unit {0})
  refuse_prerequisites reason = do
    fail_with reason
    note w.now ConditionType.prerequisites_met status_false reason
    try_update
    stop returned

  unfoldable pub await_prerequisites : M (Unit {0})
  await_prerequisites = do
    modify (set_phase installing_prerequisites)
    note w.now ConditionType.prerequisites_met status_false (bytes "InstallingPrerequisites")
    update_or_fail
    stop (requeue_after requeue_interval)

  unfoldable pub on_verdict : List Prerequisite → Verdict → List PrerequisiteStatus → M (Unit {0})
  on_verdict ps invalid sts = refuse_prerequisites (bytes "InvalidPrerequisite")
  on_verdict ps some_conflict sts = refuse_prerequisites (bytes "PrerequisiteNamespaceConflict")
  on_verdict ps some_failed sts = refuse_prerequisites (bytes "PrerequisitesNotReady")
  on_verdict ps some_missing sts = do
    installed ← install_missing ps sts
    modify (set_prerequisites installed)
    await_prerequisites
  on_verdict ps some_installing sts = await_prerequisites
  on_verdict ps all_satisfied sts =
      note w.now ConditionType.prerequisites_met status_true (bytes "PrerequisitesMet")

  -- reconcilePrerequisites, of the result of the evaluation
  unfoldable pub on_evaluation : List Prerequisite → Evaluation → M (Unit {0})
  on_evaluation ps evaluation_error = stop returned_error
  on_evaluation ps (evaluated v sts) = do modify (set_prerequisites sts); on_verdict ps v sts

  abbrev pub reconcile_prerequisites : List Prerequisite → M (Unit {0})
  reconcile_prerequisites ps =
      on_evaluation ps (evaluate_prerequisites w.cluster_again w.prerequisite_set ps)
