-- ===== src/Mesh/Laws.antt =====
-- The labels of a workspace's namespace after it is ensured.
use exalsius_operator.Kube.{Labels, Fetched, get_failed, found, not_found}
use exalsius_operator.Mesh.{
  apply_missing_labels, Namespace, Created, ensure_workspace_namespace, ready, already_exists,
  created, create_failed,
}
use exalsius_operator.Prelude.{
  ◌≡◌, Bool, Option, none, some, [], ◌∷◌, arith, Text, text_eq, text_eq_iff, lookup, insert,
  lookup-insert, label, if◌then◌else◌, refl, false,
}

label-insert :
    (k j v : Text) (m : Labels) → label j (insert k v m) ≡ (if text_eq k j then v else label j m)
unfolding label
label-insert k j v m = ground (arith, lookup-insert k j v m)

label-apply_missing_labels :
    (k v : Text) (labels desired : Labels)
    → lookup k desired ≡ some v
    → label k (apply_missing_labels labels desired).0 ≡ v
unfolding apply_missing_labels lookup
label-apply_missing_labels k v labels [] h = cc
label-apply_missing_labels k v labels ((j, w) ∷ desired) h = ground (
  arith,
  label-insert j k w (apply_missing_labels labels desired).0,
  label-apply_missing_labels k v labels desired,
  text_eq_iff j k,
  text_eq_iff (label j (apply_missing_labels labels desired).0) w,
)

apply_missing_labels_same :
    (labels desired : Labels)
    → (apply_missing_labels labels desired).1 ≡ false
    → (apply_missing_labels labels desired).0 ≡ labels
unfolding apply_missing_labels
apply_missing_labels_same labels [] h = refl
apply_missing_labels_same labels ((k, v) ∷ desired) h =
    ground (arith, apply_missing_labels_same labels desired)

-- The labels of a namespace that is there, and none where it is not.
abbrev pub labels_before : Fetched Namespace → Labels
labels_before (found ns) = ns.labels
labels_before _ = []

-- The labels of the namespace after the writes.
abbrev pub labels_after : Fetched Namespace → Option Labels → Labels
labels_after ns none = labels_before ns
labels_after ns (some written) = written

-- Where the namespace of a workspace is reported ready, it has every label that is asked for with
-- its value, whether it was there before or not.
pub ensure_workspace_namespace-ready :
    (desired : Labels) (ns : Fetched Namespace) (c : Created) (u : Bool) (w : Option Labels)
    (k v : Text)
    → ensure_workspace_namespace desired ns c u ≡ (ready, w)
    → lookup k desired ≡ some v
    → label k (labels_after ns w) ≡ v
unfolding ensure_workspace_namespace label
ensure_workspace_namespace-ready desired (found ns) c u none k v h e = ground (
  arith,
  label-apply_missing_labels k v ns.labels desired,
  apply_missing_labels_same ns.labels desired,
)
ensure_workspace_namespace-ready desired (found ns) c u (some l) k v h e =
    ground (arith, label-apply_missing_labels k v ns.labels desired)
ensure_workspace_namespace-ready desired not_found created u none k v h e = cc
ensure_workspace_namespace-ready desired not_found created u (some l) k v h e = ground arith
ensure_workspace_namespace-ready desired not_found already_exists u w k v h e = cc
ensure_workspace_namespace-ready desired not_found create_failed u w k v h e = cc
ensure_workspace_namespace-ready desired get_failed c u w k v h e = cc
