-- ===== src/Reconcile/Steps.antt =====
-- The steps of Setup and the phase.
use exalsius_operator.Run.ConditionType
use exalsius_operator.Run.{
  WorkspaceClass, requeue_interval, returned, returned_error, requeue_after,
}
use exalsius_operator.World.{World, PrerequisiteAnswers}
use exalsius_operator.Feasibility.{FeasibilityStatus, compute_feasibility}
use exalsius_operator.Kube.{
  status_unknown, get_failed, not_found, status_false, found, status_true, Fetched,
}
use exalsius_operator.Prelude.{
  ◌≡◌, refl, false, Option, none, some, bytes, List, [], ◌∷◌, Text, text_eq, if◌then◌else◌,
}
use exalsius_operator.Reconcile.Sound.{is_phase_running}
use exalsius_operator.Run.ConditionType.{
  class_resolved, cluster_deployment_resolved, feasible, prerequisites_met,
}
use exalsius_operator.Run.Ensures.{Triple-bind, Triple-pure, Triple-if, Triple-look}
use exalsius_operator.Run.Keeps.{keep_try, keep_perform, keep_done, keep}
use exalsius_operator.Setup.{
  resolve_workspace_class, resolve_cluster_deployment, feasibility_unknown, set_feasibility,
  note_feasibility, refresh_feasibility, is_pending, on_creation, ensure_set, install_one,
  install_missing, set_prerequisites, refuse_prerequisites, await_prerequisites, on_verdict,
  reconcile_prerequisites, on_evaluation,
}
use exalsius_operator.Workspace.{Phase, phase_pending, installing_prerequisites}
use exalsius_operator.Mesh.{Created, create_failed, created, already_exists}
use exalsius_operator.Prerequisites.{
  Prerequisite, PrerequisiteStatus, Verdict, evaluate_prerequisites, some_missing, evaluated,
  some_failed, evaluation_error, all_satisfied, some_conflict, invalid, some_installing, ServiceSet,
  ClusterDeployment, Evaluation,
}
use exalsius_operator.Resources.{merge_resources}
use exalsius_operator.Reconcile.Phases.{
  Passes, Unmoved, note-Passes, note-Leaves, update-Leaves, try-Leaves, stop-Passes,
  fail_with-Leaves, set_phase-Leaves, update-Passes, may_wait, may_install,
}

module _ (w : World) (p : Phase) where
  pub resolve_workspace_class-Passes :
      (x : Fetched WorkspaceClass) → Passes p (resolve_workspace_class w x)
  unfolding resolve_workspace_class text_eq
  resolve_workspace_class-Passes (found c) = Triple-pure c (λ r h. h)
  resolve_workspace_class-Passes not_found =
      Triple-bind (fail_with-Leaves p (bytes "ClassNotFound")) (λ u.
        Triple-bind
          (note-Leaves p w.now ConditionType.class_resolved status_false (bytes "ClassNotFound")
            refl)
          (λ v. update-Leaves p returned))
  resolve_workspace_class-Passes get_failed = stop-Passes p returned_error

  pub resolve_cluster_deployment-Passes :
      is_phase_running p ≡ false
      → (x : Fetched ClusterDeployment) → Passes p (resolve_cluster_deployment w x)
  unfolding resolve_cluster_deployment text_eq
  resolve_cluster_deployment-Passes n (found cd) =
      note-Passes p w.now ConditionType.cluster_deployment_resolved status_true
        (bytes "ClusterDeploymentResolved") refl
  resolve_cluster_deployment-Passes n not_found =
      Triple-bind (set_phase-Leaves p phase_pending (may_wait p n) refl refl) (λ u.
        Triple-bind
          (note-Leaves p w.now ConditionType.cluster_deployment_resolved status_false
            (bytes "ClusterDeploymentNotFound") refl)
          (λ v. update-Leaves p (requeue_after requeue_interval)))
  resolve_cluster_deployment-Passes n get_failed = stop-Passes p returned_error

  feasibility_unknown-Passes : Passes p (feasibility_unknown w)
  unfolding feasibility_unknown text_eq
  feasibility_unknown-Passes =
      Triple-bind
        (note-Passes p w.now ConditionType.feasible status_unknown (bytes "FeasibilityUnknown")
          refl)
        (λ u. keep_try (Unmoved p))

  note_feasibility-Passes : (f : Option FeasibilityStatus) → Passes p (note_feasibility w f)
  unfolding note_feasibility text_eq
  note_feasibility-Passes none = feasibility_unknown-Passes
  note_feasibility-Passes (some f) =
      Triple-bind (keep (Unmoved p) (set_feasibility f) (λ o h. h)) (λ u.
        Triple-bind
          (note-Passes p w.now ConditionType.feasible (if f.fits then status_true else status_false)
            (if f.fits then bytes "ResourcesAvailable" else bytes "InsufficientResources") refl)
          (λ v. update-Passes p))

  pub refresh_feasibility-Passes : (c : WorkspaceClass) → Passes p (refresh_feasibility w c)
  unfolding refresh_feasibility
  refresh_feasibility-Passes c = Triple-look (λ o.
      Triple-if w.regional_client
        (λ h. note_feasibility-Passes (
          compute_feasibility (merge_resources c.default_resources o.deployment.resources)
            w.regional_nodes w.regional_pods))
        (λ h. feasibility_unknown-Passes))

  on_creation-Passes : (a : Created) → Passes p (on_creation w a)
  unfolding on_creation
  on_creation-Passes created = keep_done (Unmoved p)
  on_creation-Passes already_exists = keep_done (Unmoved p)
  on_creation-Passes create_failed = stop-Passes p returned_error

  ensure_set-Passes :
      (t : Text) (a : PrerequisiteAnswers) (x : Fetched ServiceSet) → Passes p (ensure_set w t a x)
  unfolding ensure_set
  ensure_set-Passes t a (found ss) = keep_done (Unmoved p)
  ensure_set-Passes t a not_found =
      Triple-if a.values_error (λ h. stop-Passes p returned_error)
        (λ h. Triple-bind (keep_perform (Unmoved p)) (λ u. on_creation-Passes a.creation))
  ensure_set-Passes t a get_failed = stop-Passes p returned_error

  install_one-Passes : (q : Prerequisite) (st : PrerequisiteStatus) → Passes p (install_one w q st)
  unfolding install_one
  install_one-Passes q st =
      Triple-if (is_pending st.phase)
        (λ h.
          Triple-bind
            (ensure_set-Passes q.template (w.prerequisite_answers q.template)
              (w.prerequisite_answers q.template).existing)
            (λ u. Triple-pure _ (λ r k. k)))
        (λ h. Triple-pure st (λ r k. k))

  install_missing-Passes :
      (ps : List Prerequisite) (sts : List PrerequisiteStatus) → Passes p (install_missing w ps sts)
  unfolding install_missing
  install_missing-Passes [] sts = Triple-pure sts (λ r k. k)
  install_missing-Passes (q ∷ ps) [] = Triple-pure [] (λ r k. k)
  install_missing-Passes (q ∷ ps) (st ∷ sts) =
      Triple-bind (install_one-Passes q st)
        (λ st'. Triple-bind (install_missing-Passes ps sts) (λ rest. Triple-pure _ (λ r k. k)))

  refuse_prerequisites-Passes : (reason : Text) → Passes p (refuse_prerequisites w reason)
  unfolding refuse_prerequisites text_eq
  refuse_prerequisites-Passes reason = Triple-bind (fail_with-Leaves p reason) (λ u.
      Triple-bind (note-Leaves p w.now ConditionType.prerequisites_met status_false reason refl)
        (λ v. try-Leaves p returned))

  await_prerequisites-Passes : Passes p (await_prerequisites w)
  unfolding await_prerequisites text_eq
  await_prerequisites-Passes =
      Triple-bind (set_phase-Leaves p installing_prerequisites (may_install p) refl refl) (λ u.
        Triple-bind
          (note-Leaves p w.now ConditionType.prerequisites_met status_false
            (bytes "InstallingPrerequisites") refl)
          (λ v. update-Leaves p (requeue_after requeue_interval)))

  on_verdict-Passes :
      (ps : List Prerequisite) (v : Verdict) (sts : List PrerequisiteStatus)
      → Passes p (on_verdict w ps v sts)
  unfolding on_verdict text_eq
  on_verdict-Passes ps invalid sts = refuse_prerequisites-Passes _
  on_verdict-Passes ps some_conflict sts = refuse_prerequisites-Passes _
  on_verdict-Passes ps some_failed sts = refuse_prerequisites-Passes _
  on_verdict-Passes ps some_missing sts = Triple-bind (install_missing-Passes ps sts) (λ rest.
      Triple-bind (keep (Unmoved p) (set_prerequisites rest) (λ o h. h))
        (λ u. await_prerequisites-Passes))
  on_verdict-Passes ps some_installing sts = await_prerequisites-Passes
  on_verdict-Passes ps all_satisfied sts =
      note-Passes p w.now ConditionType.prerequisites_met status_true (bytes "PrerequisitesMet")
        refl

  on_evaluation-Passes : (ps : List Prerequisite) (e : Evaluation) → Passes p (on_evaluation w ps e)
  unfolding on_evaluation
  on_evaluation-Passes ps evaluation_error = stop-Passes p returned_error
  on_evaluation-Passes ps (evaluated v sts) =
      Triple-bind (keep (Unmoved p) (set_prerequisites sts) (λ o h. h))
        (λ u. on_verdict-Passes ps v sts)

  pub reconcile_prerequisites-Passes :
      (ps : List Prerequisite) → Passes p (reconcile_prerequisites w ps)
  reconcile_prerequisites-Passes ps =
      on_evaluation-Passes ps (evaluate_prerequisites w.cluster_again w.prerequisite_set ps)
