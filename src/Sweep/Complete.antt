-- ===== src/Sweep/Complete.antt =====
-- Which orphans sweepOnce removes.
use exalsius_operator.Sweep.Orphans.{IsOrphan}
use exalsius_operator.Mesh.{label_workspace, Namespace}
use exalsius_operator.Prelude.{
  ◌≡◌, sym, ap, ◌∙◌, subst, Bool, true, false, List, [], ◌∷◌, ◌++◌, Memᴰ, arith, Text, keep, lookup,
  label, if◌then◌else◌, refl, Option, none, some, bytes, is_empty,
}
use exalsius_operator.Provider.Complete.{names}
use exalsius_operator.Sweep.{
  has_workspace, is_kept, sweep_namespaces, is_active_in, delete_namespace, Request,
  RegionalAnswers, sweep_cluster, sweep_clusters, list_regional_cluster_deployments, sweep_orphans,
  sweep_once, delete_tcp_routes,
}
use exalsius_operator.Regional.{label_kof_cluster_role, Cluster, has_label}

module _ {A : Type 0} {z : A} where
  Memᴰ-if : (b : Bool) (xs ys : List A) → Memᴰ z xs → Memᴰ z ys → Memᴰ z (if b then xs else ys)
  Memᴰ-if true xs ys h k = h
  Memᴰ-if false xs ys h k = k

  Memᴰ-append_left : (xs ys : List A) → Memᴰ z xs → Memᴰ z (xs ++ ys)
  Memᴰ-append_left [] ys m = elim m [ ]
  Memᴰ-append_left (x ∷ xs) ys (Memᴰ.head e) = Memᴰ.head e
  Memᴰ-append_left (x ∷ xs) ys (Memᴰ.tail m) = Memᴰ.tail (Memᴰ-append_left xs ys m)

  Memᴰ-append_right : (xs ys : List A) → Memᴰ z ys → Memᴰ z (xs ++ ys)
  Memᴰ-append_right [] ys m = m
  Memᴰ-append_right (x ∷ xs) ys m = Memᴰ.tail (Memᴰ-append_right xs ys m)

  Memᴰ-keep : (p : A → Bool) (xs : List A) → p z ≡ true → Memᴰ z xs → Memᴰ z (keep p xs)
  Memᴰ-keep p [] h m = elim m [ ]
  Memᴰ-keep p (x ∷ xs) h (Memᴰ.head e) =
      subst (λ b. Memᴰ z (if b then x ∷ keep p xs else keep p xs)) (sym (ap p (sym e) ∙ h))
        (Memᴰ.head e)
  Memᴰ-keep p (x ∷ xs) h (Memᴰ.tail m) =
      let rest = Memᴰ-keep p xs h m in
      Memᴰ-if (p x) (x ∷ keep p xs) (keep p xs) (Memᴰ.tail rest) rest

module _ (names : List Text) where
  IsOrphan-is_kept : (ns : Namespace) → IsOrphan names ns → is_kept (is_active_in names) ns ≡ false
  unfolding is_kept
  IsOrphan-is_kept ns h = ground (arith, h.0, h.1, h.2)

  IsOrphan-has_workspace : (n : Text × Namespace) → IsOrphan names n.1 → has_workspace n ≡ true
  unfolding label is_empty
  IsOrphan-has_workspace (name, ns) h = on_label (lookup label_workspace ns.labels) h.1
    where
      on_label :
          (o : Option Text)
          → is_empty (elim o as (λ x. Text) [ none ↦ [] | some v ↦ v ]) ≡ false
          → (elim o as (λ x. Bool) [ none ↦ false | some v ↦ true ]) ≡ true
      on_label none k = ground (arith, k)
      on_label (some v) k = refl

  module _ (c : Text) (tcp : Text → Bool) (name : Text) (ns : Namespace) where
    deleted_head :
        (rest : List Request)
        → IsOrphan names ns
        → tcp name ≡ true
        → Memᴰ (delete_namespace c name) (
            if is_kept (is_active_in names) ns
            then rest
            else if tcp name
            then delete_tcp_routes c name none ∷ delete_namespace c name ∷ rest
            else delete_tcp_routes c name none ∷ rest)
    deleted_head rest o t = rw (IsOrphan-is_kept ns o, t) (Memᴰ.tail (Memᴰ.head refl))

    sweep_namespaces-Memᴰ :
        (nss : List (Text × Namespace))
        → IsOrphan names ns
        → tcp name ≡ true
        → Memᴰ (name, ns) nss
        → Memᴰ (delete_namespace c name) (sweep_namespaces (is_active_in names) c tcp nss)
    unfolding sweep_namespaces
    sweep_namespaces-Memᴰ [] o t m = elim m [ ]
    sweep_namespaces-Memᴰ ((n, k) ∷ nss) o t (Memᴰ.head e) =
        subst
          (λ q.
            Memᴰ (delete_namespace c name) (sweep_namespaces (is_active_in names) c tcp (q ∷ nss)))
          e (deleted_head (sweep_namespaces (is_active_in names) c tcp nss) o t)
    sweep_namespaces-Memᴰ ((n, k) ∷ nss) o t (Memᴰ.tail m) =
        let rest = sweep_namespaces-Memᴰ nss o t m in
        Memᴰ-if (is_kept (is_active_in names) k) _ _ rest
          (Memᴰ-if (tcp n) _ _ (Memᴰ.tail (Memᴰ.tail rest)) (Memᴰ.tail rest))

  module _ (answers : Cluster → RegionalAnswers) (c : Cluster) (nss : List (Text × Namespace))
      (name : Text) (ns : Namespace) where
    sweep_cluster-Memᴰ :
        (answers c).reachable ≡ true
        → (answers c).namespaces ≡ some nss
        → (answers c).tcp_deleted name ≡ true
        → Memᴰ (name, ns) nss
        → IsOrphan names ns
        → Memᴰ (delete_namespace c.name name) (sweep_cluster (is_active_in names) c (answers c))
    unfolding sweep_cluster
    sweep_cluster-Memᴰ r l t m o =
        rw (r, l)
          (sweep_namespaces-Memᴰ c.name (answers c).tcp_deleted name ns (keep has_workspace nss) o t
            (Memᴰ-keep has_workspace nss (IsOrphan-has_workspace (name, ns) o) m))

    sweep_clusters-Memᴰ :
        (cs : List Cluster)
        → Memᴰ (delete_namespace c.name name) (sweep_cluster (is_active_in names) c (answers c))
        → Memᴰ c cs
        → Memᴰ (delete_namespace c.name name) (sweep_clusters (is_active_in names) answers cs)
    unfolding sweep_clusters
    sweep_clusters-Memᴰ [] h m = elim m [ ]
    sweep_clusters-Memᴰ (d ∷ cs) h (Memᴰ.head e) = Memᴰ-append_left _ _ (
        subst
          (λ q.
            Memᴰ (delete_namespace c.name name) (sweep_cluster (is_active_in names) q (answers q)))
          e h)
    sweep_clusters-Memᴰ (d ∷ cs) h (Memᴰ.tail m) =
        Memᴰ-append_right _ _ (sweep_clusters-Memᴰ cs h m)

-- The sweep misses no orphan that it can remove: a namespace that a reachable regional cluster lists,
-- that is not terminating, and whose workspace label is not the name of any WorkspaceDeployment, is
-- deleted by sweepOnce where the delete of its TCPRoutes is answered.
pub sweep_once-Memᴰ :
    (names : List Text) (cs : List Cluster) (answers : Cluster → RegionalAnswers) (c : Cluster)
    (nss : List (Text × Namespace)) (name : Text) (ns : Namespace)
    → Memᴰ c cs
    → has_label label_kof_cluster_role (bytes "regional") c ≡ true
    → (answers c).reachable ≡ true
    → (answers c).namespaces ≡ some nss
    → (answers c).tcp_deleted name ≡ true
    → Memᴰ (name, ns) nss
    → IsOrphan names ns
    → Memᴰ (delete_namespace c.name name) (sweep_once (some names) (some cs) answers)
unfolding sweep_once sweep_orphans list_regional_cluster_deployments
sweep_once-Memᴰ names cs answers c nss name ns mc role r l t m o =
    sweep_clusters-Memᴰ names answers c nss name ns
      (keep (has_label label_kof_cluster_role (bytes "regional")) cs)
      (sweep_cluster-Memᴰ names answers c nss name ns r l t m o)
      (Memᴰ-keep (has_label label_kof_cluster_role (bytes "regional")) cs role mc)
