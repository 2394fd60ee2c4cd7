-- ===== src/Teardown.antt =====
-- The deletion of a WorkspaceDeployment (workspacedeployment_controller.go, reconcileDelete and what
-- it calls in routes.go, service_apply.go and namespace.go under internal/controller/workspaces).
-- One run is a function of the answers that the clusters give to its calls; its outcome lists the
-- writes that it asked for, in order. The grace period is a parameter, as it is a variable of the
-- source.
pub mod Finish
pub mod Liveness
use exalsius_operator.Prelude.{
  ℕ, Bool, true, false, List, [], ◌∷◌, ◌++◌, Option, none, some, ltb, if◌then◌else◌,
}
use exalsius_operator.Kube.{Fetched, not_found, get_failed, found}

-- The answer to a write.
pub data Written : Type 0 where
  write_ok write_not_found write_failed : Written

-- A ServiceSet as far as deletion reads it: whether its deletion timestamp is set and whether it
-- has finalizers.
pub record OwnedSet : Type 0 where
  pub deleting : Bool
  pub has_finalizers : Bool

-- The answers. `route_provider` is `none` where no provider is registered, and says whether
-- CleanupRoutes succeeds; `cluster` and `namespace` say whether the object is being deleted.
pub record Answers : Type 0 where
  pub since_deletion : ℕ
  pub route_provider : Option Bool
  pub cluster : Fetched Bool
  pub service_set : Fetched OwnedSet
  pub set_delete : Written
  pub set_patch : Written
  pub service_set_again : Fetched OwnedSet
  pub child_client : Bool
  pub namespace : Fetched Bool
  pub namespace_delete : Written
  pub finalizer_update : Bool

pub data Call : Type 0 where
  update_phase clean_routes delete_set patch_set delete_namespace remove_finalizer : Call
  abandon_routes abandon_namespace : Call

pub data Result : Type 0 where
  done requeue reconcile_error : Result

pub record Outcome : Type 0 where
  pub calls : List Call
  pub result : Result

-- A cleanup step: it is finished, must be tried again, or fails.
pub data Step : Type 0 where
  finished again step_error : Step

abbrev pub failed_write : Written → Bool
failed_write write_failed = true
failed_write _ = false

-- targetClusterGone; `none` is the error.
unfoldable pub target_cluster_gone : Fetched Bool → Option Bool
target_cluster_gone (found deleting) = some deleting
target_cluster_gone not_found = some true
target_cluster_gone get_failed = none

-- The second half of forceDeleteWorkspaceServiceSet: the finalizers are dropped.
unfoldable pub drop_finalizers : Answers → OwnedSet → Step × List Call
drop_finalizers a ss =
    if ss.has_finalizers
    then (if failed_write a.set_patch then step_error else finished, patch_set ∷ [])
    else (finished, [])

abbrev pub after : List Call → Step × List Call → Step × List Call
after cs (s, ds) = (s, cs ++ ds)

-- forceDeleteWorkspaceServiceSet
unfoldable pub force_delete_workspace_service_set : Answers → Step × List Call
unfolding drop_finalizers
force_delete_workspace_service_set a = elim a.service_set [
  | not_found ↦ (finished, [])
  | get_failed ↦ (step_error, [])
  | found ss ↦
      if ss.deleting
      then drop_finalizers a ss
      else (if failed_write a.set_delete
          then (step_error, delete_set ∷ [])
          else after (delete_set ∷ []) (drop_finalizers a ss))
]

-- The re-check of ensureWorkspaceServiceSetDeleted.
abbrev pub recheck : Fetched OwnedSet → Step
recheck not_found = finished
recheck get_failed = step_error
recheck (found ss) = again

-- ensureWorkspaceServiceSetDeleted
unfoldable pub ensure_workspace_service_set_deleted : Answers → Step × List Call
ensure_workspace_service_set_deleted a = elim a.service_set [
  | not_found ↦ (finished, [])
  | get_failed ↦ (step_error, [])
  | found ss ↦
      if ss.deleting
      then (recheck a.service_set_again, [])
      else (if failed_write a.set_delete
          then (step_error, delete_set ∷ [])
          else (recheck a.service_set_again, delete_set ∷ []))
]

-- deleteWorkspaceNamespace: whether the deletion is under way
unfoldable pub delete_workspace_namespace : Answers → Step × List Call
delete_workspace_namespace a = elim a.namespace [
  | not_found ↦ (finished, [])
  | get_failed ↦ (step_error, [])
  | found deleting ↦
      if deleting
      then (finished, [])
      else (if failed_write a.namespace_delete then step_error else finished, delete_namespace ∷ [])
]

-- A step that must be finished before the deletion goes on, behind the calls so far.
abbrev pub settle : List Call → Step × List Call → (List Call → Outcome) → Outcome
settle cs (finished, ds) next = next (cs ++ ds)
settle cs (again, ds) next = record { calls = cs ++ ds; result = requeue }
settle cs (step_error, ds) next = record { calls = cs ++ ds; result = reconcile_error }

-- A step that says whether the deletion goes on, and never fails.
abbrev pub proceed : List Call → Bool × List Call → (List Call → Outcome) → Outcome
proceed cs (true, ds) next = next (cs ++ ds)
proceed cs (false, ds) next = record { calls = cs ++ ds; result = requeue }

module _ (remote_cleanup_grace_period : ℕ) where
  unfoldable pub remote_cleanup_grace_expired : Answers → Bool
  remote_cleanup_grace_expired a = ltb remote_cleanup_grace_period a.since_deletion

  -- cleanupRoutes: `true` lets the deletion go on
  unfoldable pub cleanup_routes : Answers → Bool × List Call
  cleanup_routes a = elim a.route_provider [
    | none ↦ (true, [])
    | some ok ↦
        if ok
        then (true, clean_routes ∷ [])
        else (if remote_cleanup_grace_expired a
            then (true, clean_routes ∷ abandon_routes ∷ [])
            else (false, clean_routes ∷ []))
  ]

  -- A failed step against the child cluster is abandoned after the grace period.
  abbrev pub or_abandoned : Answers → Step × List Call → Bool × List Call
  or_abandoned a (finished, cs) = (true, cs)
  or_abandoned a (again, cs) = (false, cs)
  or_abandoned a (step_error, cs) =
      if remote_cleanup_grace_expired a then (true, cs ++ abandon_namespace ∷ []) else (false, cs)

  -- cleanupWorkspaceNamespace
  unfoldable pub cleanup_workspace_namespace : Answers → Bool × List Call
  cleanup_workspace_namespace a =
      or_abandoned a (if a.child_client then delete_workspace_namespace a else (step_error, []))

  -- The last step: the finalizer is removed.
  abbrev pub finish : Answers → List Call → Outcome
  finish a cs = record {
    calls = cs ++ remove_finalizer ∷ [];
    result = if a.finalizer_update then done else reconcile_error;
  }

  -- What follows the routes, of whether the cluster is gone: the ServiceSet and, where the cluster
  -- is there, the namespace.
  abbrev pub delete_on_cluster : Answers → List Call → Option Bool → Outcome
  delete_on_cluster a cs none = record { calls = cs; result = reconcile_error }
  delete_on_cluster a cs (some true) = settle cs (force_delete_workspace_service_set a) (finish a)
  delete_on_cluster a cs (some false) =
      settle cs (ensure_workspace_service_set_deleted a)
        (λ ds. proceed ds (cleanup_workspace_namespace a) (finish a))

  unfoldable pub delete_backend : Answers → List Call → Outcome
  delete_backend a cs = delete_on_cluster a cs (target_cluster_gone a.cluster)

  -- reconcileDelete, of whether the finalizer is there and whether the phase is Deleting already
  unfoldable pub reconcile_delete : Bool → Bool → Answers → Outcome
  reconcile_delete false is_deleting a = record { calls = []; result = done }
  reconcile_delete true is_deleting a =
      proceed (if is_deleting then [] else update_phase ∷ []) (cleanup_routes a) (delete_backend a)
