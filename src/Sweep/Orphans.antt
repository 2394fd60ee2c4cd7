-- ===== src/Sweep/Orphans.antt =====
-- Which namespaces SweepOrphans and sweepOnce remove, and in which order.
use exalsius_operator.Mesh.{label_workspace, Namespace}
use exalsius_operator.Prelude.{
  ◌≡◌, false, some, List, Memᴰ, arith, Text, text_eq, is_empty, any, label, refl, Bool, true,
  Option, none, [], ◌∷◌, ◌++◌, keep, All, if◌then◌else◌, ap, bytes, text_eq_iff, lookup,
}
use exalsius_operator.Regional.{Cluster, label_kof_cluster_role, has_label}
use exalsius_operator.Sweep.{
  Request, RegionalAnswers, is_kept, is_active_in, delete_namespace, delete_tcp_routes,
  has_workspace, sweep_namespaces, sweep_cluster, sweep_clusters, list_regional_cluster_deployments,
  sweep_orphans, sweep_once,
}
use exalsius_operator.Provider.Complete.{names}

-- A namespace with a workspace label whose workspace is not among the names.
abbrev pub IsOrphan : List Text → Namespace → Type 0
IsOrphan names ns =
    (ns.deleting ≡ false)
    × (is_empty (label label_workspace ns.labels) ≡ false)
    × (any (text_eq (label label_workspace ns.labels)) names ≡ false)

abbrev swept_namespace : Request → Text
swept_namespace (delete_tcp_routes c n w) = n
swept_namespace (delete_namespace c n) = n

abbrev swept_cluster : Request → Text
swept_cluster (delete_tcp_routes c n w) = c
swept_cluster (delete_namespace c n) = c

-- The ClusterDeployments of a listing that may fail.
abbrev pub listed_clusters : Option (List Cluster) → List Cluster
listed_clusters none = []
listed_clusters (some cs) = cs

-- One of the ClusterDeployments, with the role of a regional cluster.
abbrev pub IsRegionalIn : List Cluster → Cluster → Type 0
IsRegionalIn cs c = Memᴰ c cs × (lookup label_kof_cluster_role c.labels ≡ some (bytes "regional"))

-- The request is about an orphan that a regional cluster of the listing has listed.
abbrev pub IsAboutOrphan : List Text → List Cluster → (Cluster → RegionalAnswers) → Request → Type 0
IsAboutOrphan names all_clusters answers r =
    (c : Cluster) × (nss : List (Text × Namespace)) × (ns : Namespace) × (c.name ≡ swept_cluster r)
    × IsRegionalIn all_clusters c
    × ((answers c).namespaces ≡ some nss)
    × Memᴰ (swept_namespace r, ns) nss
    × IsOrphan names ns

module _ (names : List Text) where
  is_kept-IsOrphan : (ns : Namespace) → is_kept (is_active_in names) ns ≡ false → IsOrphan names ns
  unfolding is_kept
  is_kept-IsOrphan ns h = ground arith

module _ {A : Type 0} (P : A → Type 0) where
  if-All : (b : Bool) (xs ys : List A) → All P xs → All P ys → All P (if b then xs else ys)
  if-All true xs ys h k = h
  if-All false xs ys h k = k

  All-keep : (p : A → Bool) (xs : List A) → All P xs → All P (keep p xs)
  All-keep p [] h = tt
  All-keep p (x ∷ xs) h =
      let rest = All-keep p xs h.1 in if-All (p x) (x ∷ keep p xs) (keep p xs) (h.0, rest) rest

  All-append : (xs ys : List A) → All P xs → All P ys → All P (xs ++ ys)
  All-append [] ys h k = k
  All-append (x ∷ xs) ys h k = (h.0, All-append xs ys h.1 k)

module _ {A : Type 0} (zs : List A) where
  abbrev IsIn : A → Type 0
  IsIn x = Memᴰ x zs

All-weaken :
    {A : Type 0} {P R : A → Type 0} (xs : List A) → ((x : A) → P x → R x) → All P xs → All R xs
All-weaken [] f h = tt
All-weaken (x ∷ xs) f h = (f x h.0, All-weaken xs f h.1)

All-IsIn : {A : Type 0} (xs : List A) → All (IsIn xs) xs
All-IsIn [] = tt
All-IsIn (x ∷ xs) = (Memᴰ.head refl, All-weaken xs (λ y m. Memᴰ.tail m) (All-IsIn xs))

has_label-lookup : (k v : Text) (c : Cluster) → has_label k v c ≡ true → lookup k c.labels ≡ some v
unfolding has_label
has_label-lookup k v c h = on_label (lookup k c.labels) h
  where
    on_label :
        (o : Option Text)
        → (elim o as (λ x. Bool) [ none ↦ false | some w ↦ text_eq w v ]) ≡ true
        → o ≡ some v
    on_label none e = ground (arith, e)
    on_label (some w) e = ap some ((text_eq_iff w v).0 e)

abbrev is_regional : Cluster → Bool
is_regional c = has_label label_kof_cluster_role (bytes "regional") c

keep-IsRegionalIn :
    (all_clusters cs : List Cluster)
    → All (IsIn all_clusters) cs
    → All (IsRegionalIn all_clusters) (keep is_regional cs)
keep-IsRegionalIn all_clusters [] h = tt
keep-IsRegionalIn all_clusters (c ∷ cs) h =
    on_role (is_regional c) refl (keep-IsRegionalIn all_clusters cs h.1)
  where
    on_role :
        (b : Bool)
        → is_regional c ≡ b
        → All (IsRegionalIn all_clusters) (keep is_regional cs)
        → All
            (IsRegionalIn all_clusters)
            (if b then c ∷ keep is_regional cs else keep is_regional cs)
    on_role true e ih = ((h.0, has_label-lookup label_kof_cluster_role (bytes "regional") c e), ih)
    on_role false e ih = ih

module _ (names : List Text) (all_clusters : List Cluster)
    (answers : Cluster → RegionalAnswers) where
  sweep_namespaces-All :
      (c : Cluster) (nss_all : List (Text × Namespace)) (tcp : Text → Bool)
      (nss : List (Text × Namespace))
      → IsRegionalIn all_clusters c
      → (answers c).namespaces ≡ some nss_all
      → All (IsIn nss_all) nss
      → All
          (IsAboutOrphan names all_clusters answers)
          (sweep_namespaces (is_active_in names) c.name tcp nss)
  unfolding sweep_namespaces
  sweep_namespaces-All c nss_all tcp [] g e h = tt
  sweep_namespaces-All c nss_all tcp ((name, ns) ∷ nss) g e h =
      on_kept (is_kept (is_active_in names) ns) (tcp name) refl
        (sweep_namespaces-All c nss_all tcp nss g e h.1)
    where
      rest : List Request
      rest = sweep_namespaces (is_active_in names) c.name tcp nss

      on_kept :
          (k d : Bool)
          → is_kept (is_active_in names) ns ≡ k
          → All (IsAboutOrphan names all_clusters answers) rest
          → All (IsAboutOrphan names all_clusters answers) (
              if k
              then rest
              else if d
              then delete_tcp_routes c.name name none ∷ delete_namespace c.name name ∷ rest
              else delete_tcp_routes c.name name none ∷ rest)
      on_kept true d q ih = ih
      on_kept false true q ih =
          let orphan = is_kept-IsOrphan names ns q in
          (
            (c, nss_all, ns, refl, g, e, h.0, orphan),
            ((c, nss_all, ns, refl, g, e, h.0, orphan), ih),
          )
      on_kept false false q ih =
          ((c, nss_all, ns, refl, g, e, h.0, is_kept-IsOrphan names ns q), ih)

  sweep_cluster-All :
      (c : Cluster)
      → IsRegionalIn all_clusters c
      → All
          (IsAboutOrphan names all_clusters answers)
          (sweep_cluster (is_active_in names) c (answers c))
  unfolding sweep_cluster
  sweep_cluster-All c g = on_answers (answers c).reachable (answers c).namespaces refl
    where
      on_answers :
          (b : Bool) (o : Option (List (Text × Namespace)))
          → (answers c).namespaces ≡ o
          → All (IsAboutOrphan names all_clusters answers) (
              if b
              then (elim o [
                | none ↦ []
                | some nss ↦
                    sweep_namespaces
                      (is_active_in names)
                      c.name
                      (answers c).tcp_deleted
                      (keep has_workspace nss)
              ])
              else [])
      on_answers false o e = tt
      on_answers true none e = tt
      on_answers true (some nss) e =
          sweep_namespaces-All c nss (answers c).tcp_deleted (keep has_workspace nss) g e
            (All-keep _ has_workspace nss (All-IsIn nss))

  sweep_clusters-All :
      (cs : List Cluster)
      → All (IsRegionalIn all_clusters) cs
      → All
          (IsAboutOrphan names all_clusters answers)
          (sweep_clusters (is_active_in names) answers cs)
  unfolding sweep_clusters
  sweep_clusters-All [] h = tt
  sweep_clusters-All (c ∷ cs) h =
      All-append _ _ _ (sweep_cluster-All c h.0) (sweep_clusters-All cs h.1)

-- The sweep never touches the routes of a workspace that exists: every request of sweepOnce is about a
-- namespace that a ClusterDeployment of the listing with the regional role has listed, that is not terminating, and whose workspace label is
-- not the name of any WorkspaceDeployment, whatever the clusters answer.
pub sweep_once-IsAboutOrphan :
    (names : List Text) (listing : Option (List Cluster)) (answers : Cluster → RegionalAnswers)
    → All
        (IsAboutOrphan names (listed_clusters listing) answers)
        (sweep_once (some names) listing answers)
unfolding sweep_once sweep_orphans list_regional_cluster_deployments
sweep_once-IsAboutOrphan names none answers = tt
sweep_once-IsAboutOrphan names (some cs) answers =
    sweep_clusters-All names cs answers (keep is_regional cs)
      (keep-IsRegionalIn cs cs (All-IsIn cs))
