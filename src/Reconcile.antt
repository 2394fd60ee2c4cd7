-- ===== src/Reconcile.antt =====
-- One run of the workspace controller (Reconcile of
-- internal/controller/workspaces/workspacedeployment_controller.go), from the workspace that it reads
-- to the way it ends.
pub mod Finish
pub mod Gate
pub mod Install
pub mod Phases
pub mod Reachable
pub mod Sound
pub mod Steps
pub mod Transitions
use exalsius_operator.Teardown
use exalsius_operator.Run.ConditionType
use exalsius_operator.Run.{
  continue, stop, ◌>>=◌, ◌>>◌, Object, WorkspaceClass, Exit, Run, Ran, M, object_of, modify,
  perform, try_update, when, phase_of, set_phase, note, requeue_interval, clean_up, returned_error,
  exit, requeue_after, returned, add_finalizer, done,
}
use exalsius_operator.Setup.{
  resolve_workspace_class, resolve_cluster_deployment, refresh_feasibility, gate,
  reconcile_prerequisites,
}
use exalsius_operator.World.{World}
use exalsius_operator.Deploy.{start_deployment}
use exalsius_operator.Kube.{status_true}
use exalsius_operator.Prelude.{
  ℕ, Bool, true, false, not, List, [], Text, bytes, is_nil, if◌then◌else◌,
}
use exalsius_operator.Run.ConditionType.{class_resolved}
use exalsius_operator.Teardown.{Result, reconcile_delete, requeue, reconcile_error}
use exalsius_operator.Watch.{health_interval, check_service_readiness, reconcile_routes}
use exalsius_operator.Workspace.{Phase, phase_failed, phase_running, deploying, deleting, waiting}
use exalsius_operator.Values.{object}

-- The phases in which a step is not taken.
abbrev pub skips_cluster : Phase → Bool
skips_cluster phase_running = true
skips_cluster _ = false

abbrev pub skips_feasibility : Phase → Bool
skips_feasibility phase_running = true
skips_feasibility phase_failed = true
skips_feasibility waiting = true
skips_feasibility _ = false

abbrev pub skips_gate : Phase → Bool
skips_gate deploying = true
skips_gate phase_running = true
skips_gate phase_failed = true
skips_gate _ = false

-- A step that the phase in memory may skip.
abbrev pub unless_phase : (Phase → Bool) → M (Unit {0}) → M (Unit {0})
unless_phase skips m = do o ← object_of; when (not (skips (phase_of o))) m

abbrev pub set_finalizer : Bool → Object → Object
set_finalizer b o = record o { has_finalizer = b }

abbrev pub is_deleting : Phase → Bool
is_deleting deleting = true
is_deleting _ = false

-- A change of the finalizers is written to the object on the server, not to its status.
unfoldable pub write_finalizer : Bool → M (Unit {0})
write_finalizer b r =
    continue tt (record r { object = set_finalizer b r.object; stored = set_finalizer b r.stored })

abbrev pub exit_of : Result → Exit
exit_of Teardown.done = returned
exit_of requeue = requeue_after requeue_interval
exit_of reconcile_error = returned_error

-- The finalizer is gone where its removal was asked for and succeeded.
abbrev pub removes_finalizer : Result → Bool
removes_finalizer Teardown.done = true
removes_finalizer _ = false

abbrev pub started : List Bool → Object → Run
started replies o = record { object = o; stored = o; replies = replies; effects = [] }

-- A run whose steps are through returns.
abbrev pub ended : Ran (Unit {0}) → Exit × Run
ended (continue a r) = (returned, r)
ended (exit e r) = (e, r)

module _ (show : ℕ → Text) (hex : ℕ → Text → Text) (w : World) where
  -- reconcileDelete, whose calls to the clusters are those of the deletion model
  unfoldable pub run_delete : M (Unit {0})
  run_delete = do
    o ← object_of
    when (not o.has_finalizer) (stop returned)
    when (not (is_deleting (phase_of o))) (modify (set_phase deleting) >> try_update)
    let outcome = reconcile_delete w.grace_period true (is_deleting (phase_of o)) w.deletion
    perform (clean_up outcome.calls)
    when (removes_finalizer outcome.result) (write_finalizer false)
    stop (exit_of outcome.result)

  unfoldable pub add_missing_finalizer : M (Unit {0})
  add_missing_finalizer =
      if w.finalizer_added
      then (perform add_finalizer >> write_finalizer true)
      else stop returned_error

  unfoldable pub ensure_finalizer : M (Unit {0})
  ensure_finalizer = do o ← object_of; when (not o.has_finalizer) add_missing_finalizer

  -- What follows the steps that may hold a workspace back: by its phase.
  unfoldable pub act : WorkspaceClass → Phase → M (Unit {0})
  act c deploying = check_service_readiness w
  act c phase_running = reconcile_routes w c >> stop (requeue_after health_interval)
  act c phase_failed = stop returned
  act c _ = start_deployment show hex w c

  unfoldable pub prepare : WorkspaceClass → M (Unit {0})
  prepare c = do
    note w.now ConditionType.class_resolved status_true (bytes "ClassResolved")
    unless_phase skips_cluster (resolve_cluster_deployment w w.cluster)
    unless_phase skips_feasibility (refresh_feasibility w c)
    unless_phase skips_gate (gate w c)
    when (not (is_nil c.prerequisites)) (reconcile_prerequisites w c.prerequisites)

  unfoldable pub set_up : M (Unit {0})
  set_up = do
    ensure_finalizer
    c ← resolve_workspace_class w w.class
    prepare c
    o ← object_of
    act c (phase_of o)

  unfoldable pub reconcile_steps : M (Unit {0})
  reconcile_steps = do
    o ← object_of
    when o.suspend (stop returned)
    if o.is_deleted then run_delete else set_up

  -- Reconcile on a workspace that was read: how the run ends, and what it leaves
  unfoldable pub reconcile : List Bool → Object → Exit × Run
  reconcile replies o = ended (reconcile_steps (started replies o))
