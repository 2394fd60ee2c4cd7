-- ===== src/Examples/Lifecycle.antt =====
-- One workspace on its way: conditions, order, prerequisites and deletion.
use exalsius_operator.Kube.{status_true, get_failed, not_found, found, status_false}
use exalsius_operator.Prelude.{
  ◌≡◌, refl, true, false, none, some, [], ◌∷◌, map, arith, bytes, text_eq, is_empty, All, lookup,
  insert, label, inl, any,
}
use exalsius_operator.Prerequisites.{
  ClusterDeployment, Prerequisite, PrerequisiteStatus, prerequisite_namespace_conflict, colony_of,
  evaluate_one, evaluate_loop, evaluate_prerequisites, deployed, prerequisite_satisfied, no_message,
  colony,
}
use exalsius_operator.Prerequisites.Summary.{evaluate_prerequisites-All, IsSatisfied}
use exalsius_operator.Teardown.{
  Answers, target_cluster_gone, ensure_workspace_service_set_deleted, remote_cleanup_grace_expired,
  cleanup_routes, cleanup_workspace_namespace, delete_backend, reconcile_delete, done, write_ok,
  write_failed,
}
use exalsius_operator.Teardown.Finish.{MayFinish, reconcile_delete-MayFinish, is_remove}
use exalsius_operator.Teardown.Liveness.{
  reconcile_delete_without_cluster, reconcile_delete_after_grace,
}
use exalsius_operator.Workspace.{Condition, Status, set_condition, Age, deploying}
use exalsius_operator.Workspace.Conditions.{find_condition, updated, set_condition-find_condition}

abbrev ready : Condition
ready = record {
  condition_type = bytes "Ready";
  status = status_true;
  reason = bytes "DeploymentReady";
  observed_generation = 1;
  last_transition_time = 0;
}

abbrev status_one : Status
status_one = record {
  phase = deploying;
  conditions = record ready { status = status_false } ∷ [];
  failure_context = none;
  observed_generation = 1;
}

set_condition-find_condition_example :
    find_condition (bytes "Ready") ((set_condition 7 ready status_one).conditions)
    ≡ some (updated 7 ready (find_condition (bytes "Ready") status_one.conditions))
set_condition-find_condition_example = set_condition-find_condition 7 ready status_one

abbrev old : Age
old = record { created = 10; uid = bytes "b" }

abbrev young : Age
young = record { created = 11; uid = bytes "a" }

abbrev prerequisite : Prerequisite
prerequisite = record { template = bytes "kuberay"; version_constraint = []; namespace = [] }

abbrev cluster : ClusterDeployment
cluster = record {
  spec_services = [];
  status_services =
      record {
        name = bytes "ray";
        template = bytes "kuberay";
        namespace = bytes "ray";
        state = deployed;
        failure_message = [];
      }
      ∷ [];
  deleting = false;
}

abbrev satisfied_status : PrerequisiteStatus
satisfied_status = record {
  name = bytes "kuberay";
  phase = prerequisite_satisfied;
  source = colony;
  namespace = bytes "ray";
  message = no_message;
}

evaluate_prerequisites-All_example :
    (map (λ s. s.name) (satisfied_status ∷ []) ≡ map (λ p. p.template) (prerequisite ∷ []))
    × All IsSatisfied (satisfied_status ∷ [])
unfolding evaluate_prerequisites evaluate_loop evaluate_one colony_of text_eq is_empty
    prerequisite_namespace_conflict label lookup insert
evaluate_prerequisites-All_example =
    evaluate_prerequisites-All (found cluster) (λ t. not_found) (prerequisite ∷ [])
      (satisfied_status ∷ []) refl

abbrev answers : Answers
answers = record {
  since_deletion = 700;
  route_provider = some false;
  cluster = found false;
  service_set = not_found;
  set_delete = write_ok;
  set_patch = write_ok;
  service_set_again = not_found;
  child_client = false;
  namespace = get_failed;
  namespace_delete = write_failed;
  finalizer_update = true;
}

reconcile_delete-MayFinish_example : MayFinish 600 answers
unfolding reconcile_delete delete_backend cleanup_routes remote_cleanup_grace_expired
    ensure_workspace_service_set_deleted cleanup_workspace_namespace target_cluster_gone
reconcile_delete-MayFinish_example = reconcile_delete-MayFinish 600 false answers refl

abbrev gone : Answers
gone = record answers {
  cluster = not_found;
  route_provider = none;
  service_set = found (record { deleting = true; has_finalizers = true });
}

reconcile_delete_without_cluster_example :
    ((reconcile_delete 600 true false gone).result ≡ done)
    × (any is_remove (reconcile_delete 600 true false gone).calls ≡ true)
unfolding target_cluster_gone
reconcile_delete_without_cluster_example =
    reconcile_delete_without_cluster 600 true false gone (inl refl) (λ e. ground (arith, e))
      (λ e. ground (arith, e)) (λ e. ground (arith, e)) (λ e. ground (arith, e)) refl

reconcile_delete_after_grace_example :
    ((reconcile_delete 600 true false answers).result ≡ done)
    × (any is_remove (reconcile_delete 600 true false answers).calls ≡ true)
unfolding target_cluster_gone
reconcile_delete_after_grace_example =
    reconcile_delete_after_grace 600 true false answers refl refl (omega arith) refl
