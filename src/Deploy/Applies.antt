-- ===== src/Deploy/Applies.antt =====
-- The ServiceSet that the first setup writes.
use exalsius_operator.Run.{
  continue, stop, done, pure, ◌>>◌, Run, Object, ServiceEntry, apply_service_set, update_or_fail,
  Exit, modify, perform, with_status, requeue_interval, requeue_after, returned_error,
  WorkspaceClass, panicked, write_namespace, Ran, when, exit,
}
use exalsius_operator.Run.Ensures.{
  Triple, Triple-look, Triple-read, Triple-weaken, Triple-bind, Triple-if, Triple-pure, Triple-fact,
  Ensures,
}
use exalsius_operator.World.{World}
use exalsius_operator.Prelude.{
  ◌≡◌, refl, ◌∙◌, Option, none, some, [], ◌∷◌, arith, Text, sym, ℕ, true, subst, ap, Bool, false,
  not, List,
}
use exalsius_operator.Values.{Fields}
use exalsius_operator.Deploy.{
  fail_run, keep_pending, merged_or_fail, inject_all, start_deploying, note_labels, on_readiness,
  settle_namespace, note_injected, noted_values, prepare_values, prepare_namespace,
  write_service_set, ensure_workspace_service_set, resolve_gpu_resource, set_resolved,
  set_entry_name, service_entry, install, deploy_resolved, start_deployment,
}
use exalsius_operator.Merge.{Merged, merged, merge_error, merge_panic, merge_values_map}
use exalsius_operator.Mesh.{
  namespace_labels, workspace_namespace_labels, Readiness, ensure_workspace_namespace, ready,
  ensure_error, not_ready,
}
use exalsius_operator.Naming.{helm_release_name, workspace_namespace_name}
use exalsius_operator.Kube.{Labels, Fetched, get_failed, found, not_found}
use exalsius_operator.Prerequisites.{ServiceSet}
use exalsius_operator.Resources.{WorkspaceResourceSpec, merge_resources}
use exalsius_operator.Deploy.Effects.{
  applied, SoFar, Allowed, applied_first, stop-Ends, status-Keeps, perform-Keeps, update-Keeps,
  fail_run-Ends, keep_pending-Ends,
}
use exalsius_operator.Inject.{Warning}

-- The run that a step leaves, whether it goes on or has ended.
abbrev pub left : Ran (Unit {0}) → Run
left (continue a r) = r
left (exit e r) = r

-- What a ServiceSet that is applied rests on.
abbrev pub readiness_of : (ℕ → Text → Text) → World → Text → Text → Readiness
readiness_of hex w cluster name =
    (ensure_workspace_namespace
      (workspace_namespace_labels name (namespace_labels hex w.mesh cluster)) w.namespace
      w.namespace_creation w.namespace_updated).0

pub record MayApply (hex : ℕ → Text → Text) (w : World) (c : WorkspaceClass) (o : Object)
    (svc : ServiceEntry) : Type 0 where
  pub has_client : w.child_client_again ≡ true
  pub has_values : w.values_serialized ≡ true
  pub has_namespace : readiness_of hex w o.deployment.cluster_name o.name ≡ ready
  pub template : svc.template ≡ c.service_template
  pub namespace : svc.namespace ≡ workspace_namespace_name o.name
  pub name : svc.name ≡ helm_release_name o.deployment.cluster_name o.name

module _ (show : ℕ → Text) (hex : ℕ → Text → Text) (w : World) (c : WorkspaceClass)
    (start : Object) where
  abbrev G : ServiceEntry → Type 0
  G = MayApply hex w c start

  abbrev cluster : Text
  cluster = start.deployment.cluster_name

  none_fine : (svc : ServiceEntry) → none ≡ some svc → G svc
  none_fine svc h = cc

  abbrev None : Run → Type 0
  None = SoFar none cluster start.name

  abbrev Over : Run → Type 0
  Over = Allowed G cluster start.name

  fail-Ends : {A : Type 0} {Q : A → Run → Type 0} → Triple None (fail_run {A = A}) Q Over
  fail-Ends = fail_run-Ends G cluster start.name none none_fine

  pend-Ends : {A : Type 0} {Q : A → Run → Type 0} → Triple None (keep_pending {A = A}) Q Over
  pend-Ends = keep_pending-Ends G cluster start.name none none_fine

  halt-Ends : {A : Type 0} {Q : A → Run → Type 0} (e : Exit) → Triple None (stop {A = A} e) Q Over
  halt-Ends = stop-Ends G cluster start.name none none_fine

  merged_or_fail-Keeps : (m : Merged) → Triple None (merged_or_fail m) (λ x. None) Over
  merged_or_fail-Keeps merge_error = fail-Ends
  merged_or_fail-Keeps merge_panic = halt-Ends panicked
  merged_or_fail-Keeps (merged m) = Triple-pure m (λ r h. h)

  noted_values-Keeps : (i : Fields × List Warning) → Triple None (noted_values w i) (λ x. None) Over
  unfolding note_injected
  noted_values-Keeps (values, []) = record { at = λ r h. h }
  noted_values-Keeps (values, (x ∷ xs)) = record { at = λ r h. h }

  prepare_values-Keeps :
      (r : WorkspaceResourceSpec ℕ) (resource : Text)
      → Triple None
          (prepare_values show hex w c r resource)
          (λ values r'. None r' × (w.values_serialized ≡ true))
          Over
  unfolding prepare_values
  prepare_values-Keeps r resource = Triple-look (λ o.
      Triple-bind (merged_or_fail-Keeps (merge_values_map c.default_values o.values)) (λ m.
        Triple-bind (noted_values-Keeps (inject_all show m r resource c.resource_injection))
          (λ values.
            Triple-if w.values_serialized {m = pure values} {n = fail_run}
              (λ h. Triple-pure values (λ r' k. (k, h))) (λ h. fail-Ends))))

  note_labels-Keeps : (l : Option Labels) → Triple None (note_labels l) (λ x. None) Over
  note_labels-Keeps none = Triple-pure tt (λ r h. h)
  note_labels-Keeps (some l) =
      perform-Keeps G cluster start.name none none_fine (write_namespace l) refl

  on_readiness-ready :
      (x : Readiness) → Triple None (on_readiness x) (λ u r. None r × (x ≡ ready)) Over
  on_readiness-ready ready = Triple-pure tt (λ r h. (h, refl))
  on_readiness-ready not_ready = pend-Ends
  on_readiness-ready ensure_error = halt-Ends returned_error

  settle_namespace-ready :
      (x : Readiness × Option Labels)
      → Triple None (settle_namespace x) (λ u r. None r × (x.0 ≡ ready)) Over
  settle_namespace-ready (x, l) = Triple-bind (note_labels-Keeps l) (λ u. on_readiness-ready x)

  set-Keeps :
      (f : Object → Object)
      → ((o : Object) → (f o).deployment.cluster_name ≡ o.deployment.cluster_name)
      → ((o : Object) → (f o).name ≡ o.name)
      → Triple None (modify f) (λ u. None) Over
  set-Keeps f a b = record { at = λ r h. (h.0, a r.object ∙ h.1, b r.object ∙ h.2) }

  over : (x : Ran (Unit {0})) → Ensures (λ u. None) Over x → Over (left x)
  over (continue a r) h svc k = none_fine svc (sym h.0 ∙ k)
  over (exit e r) h svc k = h svc k

  flipped : (b : Bool) → not b ≡ false → b ≡ true
  flipped b h = ground arith

  -- The names of the workspace are those that it started with.
  abbrev Named : Object → Type 0
  Named o = (o.deployment.cluster_name ≡ cluster) × (o.name ≡ start.name)

  named-settle :
      (cl nm : Text)
      → cl ≡ cluster
      → nm ≡ start.name
      → Triple None
          (settle_namespace (
            ensure_workspace_namespace
              (workspace_namespace_labels nm (namespace_labels hex w.mesh cl))
              w.namespace
              w.namespace_creation
              w.namespace_updated))
          (λ u r. None r × (readiness_of hex w cluster start.name ≡ ready))
          Over
  named-settle cl nm e n =
      rw (e, n)
        (settle_namespace-ready (
          ensure_workspace_namespace
            (workspace_namespace_labels start.name (namespace_labels hex w.mesh cluster))
            w.namespace w.namespace_creation w.namespace_updated))

  prepare_namespace-ready :
      Triple None
        (prepare_namespace show hex w)
        (λ u r. None r × (readiness_of hex w cluster start.name ≡ ready))
        Over
  unfolding prepare_namespace
  prepare_namespace-ready = Triple-read (λ o.
      Triple-fact (Named o) (λ r h. subst Named h.1 (h.0.1, h.0.2))
        (λ e.
          Triple-weaken None (λ r k. k.0) (named-settle o.deployment.cluster_name o.name e.0 e.1)))

  module _ (svc : ServiceEntry) (may : G svc) where
    after : (x : ServiceEntry) → some svc ≡ some x → G x
    after x e = subst G (same x e) may
      where
        same : (y : ServiceEntry) → some svc ≡ some y → svc ≡ y
        same y k = cc

    apply-Keeps :
        Triple None
          (perform (apply_service_set svc))
          (λ u. SoFar (some svc) cluster start.name)
          Over
    apply-Keeps = record { at = λ r h. (applied_first r.effects svc h.0, h.1, h.2) }

    write_service_set-Keeps :
        Triple None
          (write_service_set show hex w svc)
          (λ u. SoFar (some svc) cluster start.name)
          Over
    unfolding write_service_set
    write_service_set-Keeps = Triple-bind apply-Keeps (λ u.
        Triple-if w.set_written {m = done} {n = fail_run} (λ h. Triple-pure tt (λ r k. k))
          (λ h. fail_run-Ends G cluster start.name (some svc) after))

    ensure-Keeps :
        (x : Fetched ServiceSet)
        → Triple None
            (ensure_workspace_service_set show hex w svc x)
            (λ u. SoFar (some svc) cluster start.name)
            Over
    unfolding ensure_workspace_service_set
    ensure-Keeps (found ss) = write_service_set-Keeps
    ensure-Keeps not_found =
        Triple-if w.owner_reference (λ h. write_service_set-Keeps) (λ h. fail-Ends)
    ensure-Keeps get_failed = fail-Ends

    rest-Ends :
        (generation : ℕ)
        → Triple
            (SoFar (some svc) cluster start.name)
            (modify (with_status (start_deploying generation))
              >> (update_or_fail >> stop {A = Unit {0}} (requeue_after requeue_interval)))
            (λ u. None)
            Over
    rest-Ends generation =
        Triple-bind
          (status-Keeps G cluster start.name (some svc) after (start_deploying generation))
          (λ u.
            Triple-bind (update-Keeps G cluster start.name (some svc) after) (λ v.
              stop-Ends G cluster start.name (some svc) after (requeue_after requeue_interval)))

  install-Ends :
      w.child_client_again ≡ true
      → w.values_serialized ≡ true
      → (values : Fields) → Triple None (install show hex w c values) (λ u. None) Over
  unfolding install
  install-Ends a v values = Triple-bind prepare_namespace-ready (λ u.
      Triple-fact (readiness_of hex w cluster start.name ≡ ready) (λ r h. h.1)
        (λ n.
          Triple-weaken None (λ r h. h.0)
            (Triple-read (λ o.
              Triple-fact (Named o) (λ r h. subst Named h.1 (h.0.1, h.0.2))
                (λ e.
                  Triple-weaken None (λ r k. k.0)
                    (let svc = service_entry c o values in
                      let may : G svc = record {
                        has_client = a;
                        has_values = v;
                        has_namespace = n;
                        template = refl;
                        namespace = ap workspace_namespace_name e.1;
                        name =
                            ap (λ x. helm_release_name x o.name) e.0
                            ∙ ap (helm_release_name cluster) e.1;
                      } in
                      Triple-bind (ensure-Keeps svc may w.own_set)
                        (λ x. rest-Ends svc may o.generation)))))))

  deploy_resolved-Ends :
      w.child_client_again ≡ true
      → (x : WorkspaceResourceSpec ℕ × Text)
      → Triple None (deploy_resolved show hex w c x) (λ u. None) Over
  deploy_resolved-Ends a (r, resource) =
      Triple-bind (set-Keeps (set_resolved r) (λ o. refl) (λ o. refl)) (λ u.
        Triple-bind (prepare_values-Keeps r resource) (λ values.
          Triple-fact (w.values_serialized ≡ true) (λ r' h. h.1)
            (λ v. Triple-weaken None (λ r' h. h.0) (install-Ends a v values))))

  reached :
      Triple None
        (when (not w.child_client_again) keep_pending)
        (λ u r. None r × (w.child_client_again ≡ true))
        Over
  reached =
      Triple-if (not w.child_client_again) {m = keep_pending} {n = done} (λ h. pend-Ends)
        (λ h. Triple-pure tt (λ r k. (k, flipped w.child_client_again h)))

  start_deployment-Ends : Triple None (start_deployment show hex w c) (λ u. None) Over
  unfolding start_deployment
  start_deployment-Ends = Triple-look (λ o.
      let r = merge_resources c.default_resources o.deployment.resources in
      Triple-bind (set-Keeps (set_resolved r) (λ x. refl) (λ x. refl)) (λ u.
        Triple-bind
          (set-Keeps (set_entry_name (helm_release_name o.deployment.cluster_name o.name))
            (λ x. refl) (λ x. refl))
          (λ v. Triple-bind reached (λ x.
            Triple-fact (w.child_client_again ≡ true) (λ r' k. k.1)
              (λ a.
                Triple-weaken None (λ r' k. k.0)
                  (deploy_resolved-Ends a (resolve_gpu_resource w.nodes_again r)))))))

  -- The first ServiceSet that a run of startDeployment applies, on a workspace for which none has
  -- been applied in the run so far, is written only where the child cluster is reached, the values
  -- are serialized and the workspace's namespace is ready on the child cluster; it installs the
  -- template of the class under the workspace's release name and into that namespace.
  pub start_deployment-MayApply :
      (r : Run) (svc : ServiceEntry)
      → r.object ≡ start
      → applied r.effects ≡ none
      → applied (left (start_deployment show hex w c r)).effects ≡ some svc
      → MayApply hex w c start svc
  start_deployment-MayApply r svc e n h =
      over (start_deployment show hex w c r)
        (start_deployment-Ends.at r (n, ap (λ o. o.deployment.cluster_name) e, ap (λ o. o.name) e))
        svc h
