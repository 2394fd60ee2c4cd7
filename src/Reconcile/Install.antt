-- ===== src/Reconcile/Install.antt =====
-- The steps of Deploy and the phase.
use exalsius_operator.Run.ConditionType
use exalsius_operator.Run.{
  done, pure, WorkspaceClass, ServiceEntry, status_of, with_status, requeue_interval,
  returned_error, panicked, requeue_after,
}
use exalsius_operator.World.{World}
use exalsius_operator.Run.Keeps.{keep, keep_done, leave, keep_perform}
use exalsius_operator.Reconcile.Phases.{
  Passes, Moved, Unmoved, moved, note-Passes, update-Leaves, try-Leaves, stop-Passes,
  fail_with-Leaves, set_phase-Leaves, may_wait, start_deploying-Moved, may_follow,
}
use exalsius_operator.Run.Ensures.{Triple-look, Triple-bind, Triple-if, Triple-pure}
use exalsius_operator.Prelude.{
  text_eq, ℕ, ◌≡◌, refl, true, false, not, Option, none, some, List, [], ◌∷◌, Text, bytes,
}
use exalsius_operator.Deploy.{
  inject_all, set_resolved, set_entry_name, start_deploying, fail_run, keep_pending, merged_or_fail,
  note_labels, on_readiness, service_entry, note_injected, noted_values, prepare_values,
  prepare_namespace, write_service_set, ensure_workspace_service_set, install, start_deployment,
  resolve_gpu_resource, settle_namespace, deploy_resolved,
}
use exalsius_operator.Inject.{Warning}
use exalsius_operator.Kube.{
  Labels, Fetched, not_found, found, get_failed, status_false, status_true,
}
use exalsius_operator.Merge.{Merged, merge_values_map, merged, merge_error, merge_panic}
use exalsius_operator.Mesh.{
  Readiness, not_ready, ready, ensure_error, namespace_labels, workspace_namespace_labels,
  ensure_workspace_namespace,
}
use exalsius_operator.Prerequisites.{ServiceSet}
use exalsius_operator.Reconcile.Sound.{is_phase_running}
use exalsius_operator.Resources.{WorkspaceResourceSpec, merge_resources}
use exalsius_operator.Run.ConditionType.{resources_injected}
use exalsius_operator.Values.{Fields}
use exalsius_operator.Workspace.{Phase, deploying, phase_pending}
use exalsius_operator.Naming.{helm_release_name}

module _ (p : Phase) where
  fail_run-Passes : {A : Type 0} → Passes p (fail_run {A = A})
  unfolding fail_run
  fail_run-Passes =
      Triple-bind (fail_with-Leaves p (bytes "InternalError")) (λ u. try-Leaves p returned_error)

  keep_pending-Passes : {A : Type 0} → is_phase_running p ≡ false → Passes p (keep_pending {A = A})
  unfolding keep_pending
  keep_pending-Passes n =
      Triple-bind (set_phase-Leaves p phase_pending (may_wait p n) refl refl)
        (λ u. try-Leaves p (requeue_after requeue_interval))

  merged_or_fail-Passes : (m : Merged) → Passes p (merged_or_fail m)
  merged_or_fail-Passes merge_error = fail_run-Passes
  merged_or_fail-Passes merge_panic = stop-Passes p panicked
  merged_or_fail-Passes (merged m) = Triple-pure m (λ r h. h)

  note_labels-Passes : (l : Option Labels) → Passes p (note_labels l)
  note_labels-Passes none = keep_done (Unmoved p)
  note_labels-Passes (some l) = keep_perform (Unmoved p)

  on_readiness-Passes : is_phase_running p ≡ false → (x : Readiness) → Passes p (on_readiness x)
  on_readiness-Passes n ready = keep_done (Unmoved p)
  on_readiness-Passes n not_ready = keep_pending-Passes n
  on_readiness-Passes n ensure_error = stop-Passes p returned_error

  settle_namespace-Passes :
      is_phase_running p ≡ false → (x : Readiness × Option Labels) → Passes p (settle_namespace x)
  settle_namespace-Passes n (x, l) =
      Triple-bind (note_labels-Passes l) (λ u. on_readiness-Passes n x)

module _ (w : World) (p : Phase) where
  note_injected-Passes : (ws : List Warning) → Passes p (note_injected w ws)
  unfolding note_injected text_eq
  note_injected-Passes [] =
      note-Passes p w.now ConditionType.resources_injected status_true (bytes "ResourcesInjected")
        refl
  note_injected-Passes (x ∷ xs) =
      note-Passes p w.now ConditionType.resources_injected status_false
        (bytes "UserPathsOverwritten") refl

  noted_values-Passes : (i : Fields × List Warning) → Passes p (noted_values w i)
  noted_values-Passes (values, warnings) =
      Triple-bind (note_injected-Passes warnings) (λ u. Triple-pure values (λ r h. h))

  prepare_values-Passes :
      (show : ℕ → Text) (hex : ℕ → Text → Text) (c : WorkspaceClass) (r : WorkspaceResourceSpec ℕ)
      (resource : Text)
      → Passes p (prepare_values show hex w c r resource)
  unfolding prepare_values
  prepare_values-Passes show hex c r resource = Triple-look (λ o.
      Triple-bind (merged_or_fail-Passes p (merge_values_map c.default_values o.values)) (λ m.
        Triple-bind (noted_values-Passes (inject_all show m r resource c.resource_injection))
          (λ values.
            Triple-if w.values_serialized {m = pure values} {n = fail_run}
              (λ h. Triple-pure values (λ r' k. k)) (λ h. fail_run-Passes p))))

  prepare_namespace-Passes :
      (show : ℕ → Text) (hex : ℕ → Text → Text)
      → is_phase_running p ≡ false
      → Passes p (prepare_namespace show hex w)
  unfolding prepare_namespace
  prepare_namespace-Passes show hex n = Triple-look (λ o. settle_namespace-Passes p n (
      ensure_workspace_namespace
        (workspace_namespace_labels o.name (namespace_labels hex w.mesh o.deployment.cluster_name))
        w.namespace w.namespace_creation w.namespace_updated))

  write_service_set-Passes :
      (show : ℕ → Text) (hex : ℕ → Text → Text) (svc : ServiceEntry)
      → Passes p (write_service_set show hex w svc)
  unfolding write_service_set
  write_service_set-Passes show hex svc = Triple-bind (keep_perform (Unmoved p)) (λ u.
      Triple-if w.set_written {m = done} {n = fail_run} (λ h. keep_done (Unmoved p))
        (λ h. fail_run-Passes p))

  ensure_workspace_service_set-Passes :
      (show : ℕ → Text) (hex : ℕ → Text → Text) (svc : ServiceEntry) (x : Fetched ServiceSet)
      → Passes p (ensure_workspace_service_set show hex w svc x)
  unfolding ensure_workspace_service_set
  ensure_workspace_service_set-Passes show hex svc (found ss) =
      write_service_set-Passes show hex svc
  ensure_workspace_service_set-Passes show hex svc not_found =
      Triple-if w.owner_reference (λ h. write_service_set-Passes show hex svc)
        (λ h. fail_run-Passes p)
  ensure_workspace_service_set-Passes show hex svc get_failed = fail_run-Passes p

  install-Passes :
      (show : ℕ → Text) (hex : ℕ → Text → Text)
      → may_follow p deploying ≡ true
      → is_phase_running p ≡ false
      → (c : WorkspaceClass) (values : Fields) → Passes p (install show hex w c values)
  unfolding install
  install-Passes show hex d n c values = Triple-bind (prepare_namespace-Passes show hex n) (λ u.
      Triple-look (λ o.
        Triple-bind
          (ensure_workspace_service_set-Passes show hex (service_entry c o values) w.own_set)
          (λ v.
            Triple-bind
              (leave (Unmoved p) (Moved p) (moved p) (with_status (start_deploying o.generation))
                (λ x h. start_deploying-Moved p (status_of x) d o.generation h.1))
              (λ x. update-Leaves p (requeue_after requeue_interval)))))

  deploy_resolved-Passes :
      (show : ℕ → Text) (hex : ℕ → Text → Text)
      → may_follow p deploying ≡ true
      → is_phase_running p ≡ false
      → (c : WorkspaceClass) (x : WorkspaceResourceSpec ℕ × Text)
      → Passes p (deploy_resolved show hex w c x)
  deploy_resolved-Passes show hex d n c (r, resource) =
      Triple-bind (keep (Unmoved p) (set_resolved r) (λ y h. h)) (λ y.
        Triple-bind (prepare_values-Passes show hex c r resource)
          (λ values. install-Passes show hex d n c values))

  pub start_deployment-Passes :
      (show : ℕ → Text) (hex : ℕ → Text → Text)
      → may_follow p deploying ≡ true
      → is_phase_running p ≡ false
      → (c : WorkspaceClass) → Passes p (start_deployment show hex w c)
  unfolding start_deployment
  start_deployment-Passes show hex d n c = Triple-look (λ o.
      let r = merge_resources c.default_resources o.deployment.resources in
      Triple-bind (keep (Unmoved p) (set_resolved r) (λ x h. h)) (λ u.
        Triple-bind
          (keep (Unmoved p) (set_entry_name (helm_release_name o.deployment.cluster_name o.name))
            (λ x h. h))
          (λ v.
            Triple-bind
              (Triple-if (not w.child_client_again) (λ h. keep_pending-Passes p n)
                (λ h. keep_done (Unmoved p)))
              (λ x. deploy_resolved-Passes show hex d n c (resolve_gpu_resource w.nodes_again r)))))
