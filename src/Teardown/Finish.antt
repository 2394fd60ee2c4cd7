-- ===== src/Teardown/Finish.antt =====
-- When a deletion removes the finalizer: what has to be cleaned up before, and what cannot hold it
-- back.
use exalsius_operator.Kube.{not_found, get_failed, found}
use exalsius_operator.Prelude.{
  ℕ, ◌<◌, ◌≡◌, ◌⊎◌, Bool, true, false, none, some, any, List, ◌++◌, arith, refl, inl, inr, Option,
  [], ◌∷◌, any-append, if◌then◌else◌,
}
use exalsius_operator.Teardown.{
  Answers, Call, target_cluster_gone, ensure_workspace_service_set_deleted,
  delete_workspace_namespace, remote_cleanup_grace_expired, cleanup_routes,
  cleanup_workspace_namespace, reconcile_delete, remove_finalizer, finished, Outcome, Step, settle,
  proceed, delete_backend, finish, step_error, update_phase, again, delete_on_cluster,
  drop_finalizers, force_delete_workspace_service_set, write_failed,
}

-- A write is among the calls.
abbrev pub is_remove : Call → Bool
is_remove remove_finalizer = true
is_remove _ = false

-- A step before the last one, behind calls that do not remove the finalizer: where the finalizer is
-- removed, the step let the deletion go on, and the removal comes later.
settle_remove :
    (cs : List Call) (r : Step × List Call) (next : List Call → Outcome)
    → any is_remove cs ≡ false
    → any is_remove r.1 ≡ false
    → any is_remove ((settle cs r next).calls) ≡ true
    → (r.0 ≡ finished)
      × (any is_remove (cs ++ r.1) ≡ false)
      × (any is_remove ((next (cs ++ r.1)).calls) ≡ true)
settle_remove cs (finished, ds) next hc hr h = (refl, ground (arith, any-append is_remove cs ds), h)
settle_remove cs (again, ds) next hc hr h = ground (arith, any-append is_remove cs ds)
settle_remove cs (step_error, ds) next hc hr h = ground (arith, any-append is_remove cs ds)

proceed_remove :
    (cs : List Call) (r : Bool × List Call) (next : List Call → Outcome)
    → any is_remove cs ≡ false
    → any is_remove r.1 ≡ false
    → any is_remove ((proceed cs r next).calls) ≡ true
    → (r.0 ≡ true)
      × (any is_remove (cs ++ r.1) ≡ false)
      × (any is_remove ((next (cs ++ r.1)).calls) ≡ true)
proceed_remove cs (true, ds) next hc hr h = (refl, ground (arith, any-append is_remove cs ds), h)
proceed_remove cs (false, ds) next hc hr h = ground (arith, any-append is_remove cs ds)

module _ (grace : ℕ) where
  -- The routes are cleaned up, or there are none, or they have been tried for the grace period.
  abbrev pub RoutesSettled : Answers → Type 0
  RoutesSettled a =
      (a.route_provider ≡ none) ⊎ ((a.route_provider ≡ some true) ⊎ (grace < a.since_deletion))

  -- The namespace is gone or on its way, or its cluster has not answered for the grace period.
  abbrev pub NamespaceSettled : Answers → Type 0
  NamespaceSettled a =
      ((a.child_client ≡ true)
        × ((a.namespace ≡ not_found)
            ⊎ ((a.namespace ≡ found true)
                ⊎ ((a.namespace ≡ found false) × ¬ (a.namespace_delete ≡ write_failed)))))
      ⊎ (grace < a.since_deletion)

  -- The ClusterDeployment was not found, or is being deleted.
  abbrev pub ClusterGone : Answers → Type 0
  ClusterGone a = (a.cluster ≡ not_found) ⊎ (a.cluster ≡ found true)

  -- The ServiceSet answers as gone.
  abbrev pub SetGone : Answers → Type 0
  SetGone a = (a.service_set ≡ not_found) ⊎ (a.service_set_again ≡ not_found)

  -- The cluster was not found or is being deleted, and then the ServiceSet could be read and its
  -- delete did not fail; or the cluster is there, and nothing is left on it.
  abbrev pub MayFinish : Answers → Type 0
  MayFinish a =
      RoutesSettled a
      × ((ClusterGone a × ¬ (a.service_set ≡ get_failed))
          ⊎ ((a.cluster ≡ found false) × SetGone a × NamespaceSettled a))

  cleanup_routes-true : (a : Answers) → (cleanup_routes grace a).0 ≡ true → RoutesSettled a
  unfolding cleanup_routes remote_cleanup_grace_expired
  cleanup_routes-true a h = ground arith

  cleanup_namespace_true :
      (a : Answers) → (cleanup_workspace_namespace grace a).0 ≡ true → NamespaceSettled a
  unfolding cleanup_workspace_namespace delete_workspace_namespace remote_cleanup_grace_expired
  cleanup_namespace_true a h = ground arith

  set_deleted : (a : Answers) → (ensure_workspace_service_set_deleted a).0 ≡ finished → SetGone a
  unfolding ensure_workspace_service_set_deleted
  set_deleted a h = ground arith

  -- The steps before the last one do not remove the finalizer.
  keeps_routes : (a : Answers) → any is_remove ((cleanup_routes grace a).1) ≡ false
  unfolding cleanup_routes
  keeps_routes a = ground arith

  keeps_namespace : (a : Answers) → any is_remove ((cleanup_workspace_namespace grace a).1) ≡ false
  unfolding cleanup_workspace_namespace delete_workspace_namespace
  keeps_namespace a = ground arith

  keeps_set : (a : Answers) → any is_remove ((ensure_workspace_service_set_deleted a).1) ≡ false
  unfolding ensure_workspace_service_set_deleted
  keeps_set a = ground arith

  -- Before the finalizer is removed, the backend is gone as far as its cluster can tell.
  target_cluster_gone-true :
      (a : Answers) → target_cluster_gone a.cluster ≡ some true → ClusterGone a
  unfolding target_cluster_gone
  target_cluster_gone-true a h = ground arith

  target_cluster_gone-false :
      (a : Answers) → target_cluster_gone a.cluster ≡ some false → a.cluster ≡ found false
  unfolding target_cluster_gone
  target_cluster_gone-false a h = ground arith

  force_deleted :
      (a : Answers)
      → (force_delete_workspace_service_set a).0 ≡ finished
      → ¬ (a.service_set ≡ get_failed)
  unfolding force_delete_workspace_service_set
  force_deleted a h = λ e. ground (arith, h, e)

  keeps_force : (a : Answers) → any is_remove ((force_delete_workspace_service_set a).1) ≡ false
  unfolding force_delete_workspace_service_set drop_finalizers
  keeps_force a = ground arith

  delete_on_cluster-remove :
      (a : Answers) (cs : List Call) (o : Option Bool)
      → any is_remove cs ≡ false
      → any is_remove ((delete_on_cluster grace a cs o).calls) ≡ true
      → ((o ≡ some true) × ¬ (a.service_set ≡ get_failed))
        ⊎ ((o ≡ some false) × SetGone a × NamespaceSettled a)
  delete_on_cluster-remove a cs none hc k = ground arith
  delete_on_cluster-remove a cs (some true) hc k =
      let set = force_delete_workspace_service_set a in
      inl (refl, force_deleted a (settle_remove cs set (finish grace a) hc (keeps_force a) k).0)
  delete_on_cluster-remove a cs (some false) hc k =
      let set = ensure_workspace_service_set_deleted a in
      let next : List Call → Outcome =
        λ ds. proceed ds (cleanup_workspace_namespace grace a) (finish grace a) in
      let (f, hd, k2) = settle_remove cs set next hc (keeps_set a) k in
      let (t, _, _) =
        proceed_remove (cs ++ set.1) (cleanup_workspace_namespace grace a) (finish grace a) hd
          (keeps_namespace a) k2 in
      inr (refl, set_deleted a f, cleanup_namespace_true a t)

  -- A run asks for the removal of the finalizer only where the routes are settled, and either the
  -- cluster was not found or is being deleted and the ServiceSet could be read, or the cluster is
  -- there, the ServiceSet was not found and the namespace is settled. A step is settled where it
  -- succeeded or had nothing to do, or where it talks to a remote cluster and the grace period is
  -- over.
  pub reconcile_delete-MayFinish :
      (is_deleting : Bool) (a : Answers)
      → any is_remove ((reconcile_delete grace true is_deleting a).calls) ≡ true
      → MayFinish a
  unfolding reconcile_delete delete_backend
  reconcile_delete-MayFinish d a h =
      let start = if d then [] else update_phase ∷ [] in
      let hs : any is_remove start ≡ false = ground arith in
      let (t, hd, k) =
        proceed_remove start (cleanup_routes grace a) (delete_backend grace a) hs (keeps_routes a)
          h in
      let backend =
        delete_on_cluster-remove a (start ++ (cleanup_routes grace a).1)
          (target_cluster_gone a.cluster) hd k in
      (
        cleanup_routes-true a t,
        elim backend [
          | inl g ↦ inl (target_cluster_gone-true a g.0, g.1)
          | inr g ↦ inr (target_cluster_gone-false a g.0, g.1, g.2)
        ],
      )
