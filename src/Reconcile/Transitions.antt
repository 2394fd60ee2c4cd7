-- ===== src/Reconcile/Transitions.antt =====
-- One run as a whole: the phase that it leaves, and the state of the status.
use exalsius_operator.Run.ConditionType
use exalsius_operator.Run.{
  continue, ◌>>=◌, M, object_of, when, phase_of, Ran, status_of, set_phase, returned, Object,
  WorkspaceClass, requeue_after, exit, returned_error,
}
use exalsius_operator.World.{World}
use exalsius_operator.Run.Keeps.{keep, keep_try, keep_done, keep_perform, Both, Stored}
use exalsius_operator.Reconcile.Phases.{
  Passes, Moved, Unmoved, moved, note-Passes, stop-Passes, stop-Leaves, may_follow,
}
use exalsius_operator.Run.Ensures.{
  Triple, Triple-weaken, Triple-look, Triple-bind, Triple-if, Ensures,
}
use exalsius_operator.Prelude.{
  text_eq, ◌≡◌, sym, subst, Bool, false, not, ℕ, refl, true, arith, Text, List, bytes, is_nil,
}
use exalsius_operator.Reconcile.{
  unless_phase, write_finalizer, is_deleting, exit_of, removes_finalizer, run_delete, skips_cluster,
  skips_feasibility, skips_gate, started, ended, add_missing_finalizer, ensure_finalizer, act,
  prepare, set_up, reconcile_steps, reconcile,
}
use exalsius_operator.Workspace.{
  Phase, deleting, installing_prerequisites, waiting, phase_running, deploying, phase_pending,
  unset, phase_failed,
}
use exalsius_operator.Reconcile.Sound.{at_phase-IsSound, is_phase_running, IsSound}
use exalsius_operator.Teardown.{reconcile_delete}
use exalsius_operator.Kube.{status_true}
use exalsius_operator.Reconcile.Finish.{check_service_readiness-Passes, reconcile_routes-Passes}
use exalsius_operator.Reconcile.Gate.{gate-Passes}
use exalsius_operator.Reconcile.Install.{start_deployment-Passes}
use exalsius_operator.Reconcile.Steps.{
  resolve_workspace_class-Passes, resolve_cluster_deployment-Passes, refresh_feasibility-Passes,
  reconcile_prerequisites-Passes,
}
use exalsius_operator.Run.ConditionType.{class_resolved}
use exalsius_operator.Setup.{resolve_cluster_deployment, refresh_feasibility, gate}
use exalsius_operator.Watch.{health_interval}

not_running : (p : Phase) → skips_cluster p ≡ false → is_phase_running p ≡ false
not_running p h = ground arith

not-true : (b : Bool) → not b ≡ true → b ≡ false
not-true b h = ground arith

module _ (p : Phase) where
  -- A step that depends on the phase in memory, which is `p`.
  at_phase :
      (k : Phase → M (Unit {0})) → Passes p (k p) → Passes p (object_of >>= λ o. k (phase_of o))
  at_phase k h = record {
    at = λ r x.
        subst (λ q. Ensures (λ u. Both (Unmoved p)) (Stored (Moved p)) (k q r)) (sym x.0.0)
          (h.at r x);
  }

  unless_phase-Passes :
      (skips : Phase → Bool) (m : M (Unit {0}))
      → (skips p ≡ false → Passes p m)
      → Passes p (unless_phase skips m)
  unless_phase-Passes skips m h =
      at_phase (λ q. when (not (skips q)) m)
        (Triple-if (not (skips p)) (λ e. h (not-true (skips p) e)) (λ e. keep_done (Unmoved p)))

  write_finalizer-Passes : (b : Bool) → Passes p (write_finalizer b)
  unfolding write_finalizer
  write_finalizer-Passes b = record { at = λ r h. h }

  write_finalizer-Leaves :
      (b : Bool)
      → Triple (Both (Moved p)) (write_finalizer b) (λ u. Both (Moved p)) (Stored (Moved p))
  unfolding write_finalizer
  write_finalizer-Leaves b = record { at = λ r h. h }

  may_delete : may_follow p deleting ≡ true
  unfolding may_follow
  may_delete = ground arith

module _ (show : ℕ → Text) (hex : ℕ → Text → Text) (w : World) (p : Phase) where
  delete-Leaves :
      Triple (Both (Moved p)) (run_delete show hex w) (λ u. Both (Unmoved p)) (Stored (Moved p))
  unfolding run_delete
  delete-Leaves = Triple-look (λ o.
      let outcome = reconcile_delete w.grace_period true (is_deleting (phase_of o)) w.deletion in
      Triple-bind
        (Triple-if (not o.has_finalizer) (λ h. stop-Leaves p returned) (λ h. keep_done (Moved p)))
        (λ u.
          Triple-bind
            (Triple-if (not (is_deleting (phase_of o)))
              (λ h.
                Triple-bind
                  (keep (Moved p) (set_phase deleting)
                    (λ x k. (may_delete p, at_phase-IsSound (status_of x) deleting refl refl k.1)))
                  (λ v. keep_try (Moved p)))
              (λ h. keep_done (Moved p)))
            (λ v. Triple-bind (keep_perform (Moved p)) (λ x.
              Triple-bind
                (Triple-if (removes_finalizer outcome.result) (λ h. write_finalizer-Leaves p false)
                  (λ h. keep_done (Moved p)))
                (λ y. stop-Leaves p (exit_of outcome.result))))))

  run_delete-Passes : Passes p (run_delete show hex w)
  run_delete-Passes =
      Triple-weaken (Both (Moved p))
        (λ r h. (moved p (status_of r.object) h.0, moved p (status_of r.stored) h.1)) delete-Leaves

  ensure_finalizer-Passes : Passes p (ensure_finalizer show hex w)
  unfolding ensure_finalizer add_missing_finalizer
  ensure_finalizer-Passes = Triple-look (λ o.
      Triple-if (not o.has_finalizer)
        (λ h.
          Triple-if w.finalizer_added
            (λ k. Triple-bind (keep_perform (Unmoved p)) (λ u. write_finalizer-Passes p true))
            (λ k. stop-Passes p returned_error))
        (λ h. keep_done (Unmoved p)))

  prepare-Passes : (c : WorkspaceClass) → Passes p (prepare show hex w c)
  unfolding prepare text_eq
  prepare-Passes c =
      Triple-bind
        (note-Passes p w.now ConditionType.class_resolved status_true (bytes "ClassResolved") refl)
        (λ u.
          Triple-bind
            (unless_phase-Passes p skips_cluster (resolve_cluster_deployment w w.cluster)
              (λ e. resolve_cluster_deployment-Passes w p (not_running p e) w.cluster))
            (λ v.
              Triple-bind
                (unless_phase-Passes p skips_feasibility (refresh_feasibility w c)
                  (λ e. refresh_feasibility-Passes w p c))
                (λ x.
                  Triple-bind
                    (unless_phase-Passes p skips_gate (gate w c) (λ e. gate-Passes p w e c))
                    (λ y.
                      Triple-if (not (is_nil c.prerequisites))
                        (λ h. reconcile_prerequisites-Passes w p c.prerequisites)
                        (λ h. keep_done (Unmoved p))))))

module _ (show : ℕ → Text) (hex : ℕ → Text → Text) (w : World) where
  act-Passes : (c : WorkspaceClass) (p : Phase) → Passes p (act show hex w c p)
  unfolding act may_follow
  act-Passes c unset = start_deployment-Passes w unset show hex refl refl c
  act-Passes c phase_pending = start_deployment-Passes w phase_pending show hex refl refl c
  act-Passes c installing_prerequisites =
      start_deployment-Passes w installing_prerequisites show hex refl refl c
  act-Passes c waiting = start_deployment-Passes w waiting show hex refl refl c
  act-Passes c deploying = check_service_readiness-Passes w deploying refl
  act-Passes c phase_running =
      Triple-bind (reconcile_routes-Passes w phase_running c)
        (λ u. stop-Passes phase_running (requeue_after health_interval))
  act-Passes c phase_failed = stop-Passes phase_failed returned
  act-Passes c deleting = start_deployment-Passes w deleting show hex refl refl c

  steps-Passes : (p : Phase) → Passes p (reconcile_steps show hex w)
  unfolding reconcile_steps set_up
  steps-Passes p = Triple-look (λ o.
      Triple-bind (Triple-if o.suspend (λ h. stop-Passes p returned) (λ h. keep_done (Unmoved p)))
        (λ u.
          Triple-if o.is_deleted (λ h. run_delete-Passes show hex w p)
            (λ h. Triple-bind (ensure_finalizer-Passes show hex w p) (λ v.
              Triple-bind (resolve_workspace_class-Passes w p w.class) (λ c.
                Triple-bind (prepare-Passes show hex w p c)
                  (λ x. at_phase p (act show hex w c) (act-Passes c p)))))))

  ended-Moved :
      (p : Phase) (x : Ran (Unit {0}))
      → Ensures (λ u. Both (Unmoved p)) (Stored (Moved p)) x
      → Moved p (status_of (ended x).1.stored)
  ended-Moved p (continue a r) h = moved p (status_of r.stored) h.1
  ended-Moved p (exit e r) h = h

  reconcile-Moved :
      (replies : List Bool) (o : Object)
      → IsSound (status_of o)
      → Moved (phase_of o) (status_of (reconcile show hex w replies o).1.stored)
  unfolding reconcile
  reconcile-Moved replies o s =
      let p = phase_of o in
      ended-Moved p (reconcile_steps show hex w (started replies o))
        ((steps-Passes p).at (started replies o) ((refl, s), (refl, s)))

  pub reconcile-may_follow :
      (replies : List Bool) (o : Object)
      → IsSound (status_of o)
      → may_follow (phase_of o) (phase_of (reconcile show hex w replies o).1.stored) ≡ true
  reconcile-may_follow replies o s = (reconcile-Moved replies o s).0

  -- Whatever the other systems answer, and whichever status updates succeed, one run keeps the stored
  -- status sound: at most one condition of a type, a failure context where the workspace has failed,
  -- and the condition Ready true where it is running.
  pub reconcile-IsSound :
      (replies : List Bool) (o : Object)
      → IsSound (status_of o)
      → IsSound (status_of (reconcile show hex w replies o).1.stored)
  reconcile-IsSound replies o s = (reconcile-Moved replies o s).1
