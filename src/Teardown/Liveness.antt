-- ===== src/Teardown/Liveness.antt =====
-- No remote cluster holds a deletion back for good.
use exalsius_operator.Kube.{get_failed, not_found, found}
use exalsius_operator.Prelude.{
  ℕ, ◌<◌, ◌≡◌, refl, Bool, true, false, some, List, [], ◌∷◌, ◌++◌, arith, if◌then◌else◌, ◌⊎◌, any,
  any-append,
}
use exalsius_operator.Teardown.{
  Answers, Call, Outcome, Step, target_cluster_gone, drop_finalizers,
  force_delete_workspace_service_set, ensure_workspace_service_set_deleted,
  delete_workspace_namespace, settle, proceed, remote_cleanup_grace_expired, cleanup_routes,
  cleanup_workspace_namespace, finish, delete_backend, reconcile_delete, again, done, step_error,
  update_phase, finished, remove_finalizer, write_failed,
}
use exalsius_operator.Teardown.Finish.{is_remove}

module _ (grace : ℕ) where
  routes_settled :
      (a : Answers)
      → (a.route_provider ≡ some false → grace < a.since_deletion)
      → (cleanup_routes grace a).0 ≡ true
  unfolding cleanup_routes remote_cleanup_grace_expired
  routes_settled a h = ground arith

  -- The run ends, and has asked for the removal of the finalizer.
  abbrev IsFinished : Outcome → Type 0
  IsFinished o = (o.result ≡ done) × (any is_remove o.calls ≡ true)

  proceed-IsFinished :
      (cs : List Call) (r : Bool × List Call) (next : List Call → Outcome)
      → r.0 ≡ true
      → ((ds : List Call) → IsFinished (next ds))
      → IsFinished (proceed cs r next)
  proceed-IsFinished cs (true, ds) next e h = h (cs ++ ds)
  proceed-IsFinished cs (false, ds) next e h = ground arith

  settle-IsFinished :
      (cs : List Call) (r : Step × List Call) (next : List Call → Outcome)
      → r.0 ≡ finished
      → ((ds : List Call) → IsFinished (next ds))
      → IsFinished (settle cs r next)
  settle-IsFinished cs (finished, ds) next e h = h (cs ++ ds)
  settle-IsFinished cs (again, ds) next e h = ground arith
  settle-IsFinished cs (step_error, ds) next e h = ground arith

  finish-IsFinished :
      (a : Answers) (ds : List Call) → a.finalizer_update ≡ true → IsFinished (finish grace a ds)
  finish-IsFinished a ds u =
      (rw u refl, ground (arith, any-append is_remove ds (remove_finalizer ∷ [])))

  gone-true :
      (a : Answers)
      → (a.cluster ≡ not_found) ⊎ (a.cluster ≡ found true)
      → target_cluster_gone a.cluster ≡ some true
  unfolding target_cluster_gone
  gone-true a h = ground (arith, h)

  gone-false : (a : Answers) → a.cluster ≡ found false → target_cluster_gone a.cluster ≡ some false
  unfolding target_cluster_gone
  gone-false a h = ground (arith, h)

  force_finished :
      (a : Answers)
      → ¬ (a.service_set ≡ get_failed)
      → ¬ (a.set_delete ≡ write_failed)
      → ¬ (a.set_patch ≡ write_failed)
      → (force_delete_workspace_service_set a).0 ≡ finished
  unfolding force_delete_workspace_service_set drop_finalizers
  force_finished a n d p = ground arith

  namespace_finished :
      (a : Answers) → grace < a.since_deletion → (cleanup_workspace_namespace grace a).0 ≡ true
  unfolding cleanup_workspace_namespace delete_workspace_namespace remote_cleanup_grace_expired
  namespace_finished a h = ground arith

  set_finished :
      (a : Answers)
      → a.service_set ≡ not_found
      → (ensure_workspace_service_set_deleted a).0 ≡ finished
  unfolding ensure_workspace_service_set_deleted
  set_finished a h = ground arith

  -- Where the target cluster was not found or is being deleted, one run finishes the deletion,
  -- whatever the child cluster answers: it ends without an error or a requeue, and has asked for the
  -- removal of the finalizer if the object had it. The read of the ServiceSet and its two writes do
  -- not fail, nor does the removal of the finalizer, and the routes are cleaned up or their grace
  -- period is over.
  pub reconcile_delete_without_cluster :
      (has is_deleting : Bool) (a : Answers)
      → (a.cluster ≡ not_found) ⊎ (a.cluster ≡ found true)
      → (a.route_provider ≡ some false → grace < a.since_deletion)
      → ¬ (a.service_set ≡ get_failed)
      → ¬ (a.set_delete ≡ write_failed)
      → ¬ (a.set_patch ≡ write_failed)
      → a.finalizer_update ≡ true
      → ((reconcile_delete grace has is_deleting a).result ≡ done)
        × (any is_remove (reconcile_delete grace has is_deleting a).calls ≡ has)
  unfolding reconcile_delete delete_backend
  reconcile_delete_without_cluster false d a g r n sd sp u = (refl, refl)
  reconcile_delete_without_cluster true d a g r n sd sp u =
      proceed-IsFinished (if d then [] else update_phase ∷ []) (cleanup_routes grace a)
        (delete_backend grace a) (routes_settled a r)
        (λ cs. rw (gone-true a g) (
          settle-IsFinished cs (force_delete_workspace_service_set a) (finish grace a)
            (force_finished a n sd sp) (λ ds. finish-IsFinished a ds u)))

  -- Where the target cluster is there and the ServiceSet is gone from the management cluster, one
  -- run after the grace period finishes the deletion, whatever the regional and the child cluster
  -- answer, if the removal of the finalizer does not fail: it ends without an error or a requeue, and
  -- has asked for the removal of the finalizer if the object had it.
  pub reconcile_delete_after_grace :
      (has is_deleting : Bool) (a : Answers)
      → a.cluster ≡ found false
      → a.service_set ≡ not_found
      → grace < a.since_deletion
      → a.finalizer_update ≡ true
      → ((reconcile_delete grace has is_deleting a).result ≡ done)
        × (any is_remove (reconcile_delete grace has is_deleting a).calls ≡ has)
  unfolding reconcile_delete delete_backend
  reconcile_delete_after_grace false d a g s e u = (refl, refl)
  reconcile_delete_after_grace true d a g s e u =
      proceed-IsFinished (if d then [] else update_phase ∷ []) (cleanup_routes grace a)
        (delete_backend grace a) (routes_settled a (λ _. e))
        (λ cs. rw (gone-false a g) (
          settle-IsFinished cs (ensure_workspace_service_set_deleted a)
            (λ ds. proceed ds (cleanup_workspace_namespace grace a) (finish grace a))
            (set_finished a s)
            (λ ds.
              proceed-IsFinished ds (cleanup_workspace_namespace grace a) (finish grace a)
                (namespace_finished a e) (λ es. finish-IsFinished a es u))))
