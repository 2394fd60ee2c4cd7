-- ===== src/Gpu/Placeable.antt =====
-- Where Kubernetes can place a pod with a node selector: a description of the nodes that does not
-- refer to internal/gpu/offering.go, and the test of that file against it.
use exalsius_operator.Gpu.{node_matches_selector}
use exalsius_operator.Gpu.Availability.{selected}
use exalsius_operator.Kube.{
  ConditionStatus, Labels, Node, blocks, node_is_schedulable, status_unknown, status_false,
  status_true,
}
use exalsius_operator.Prelude.{
  ◌≡◌, refl, Bool, true, false, not, ◌&&◌, Option, none, some, List, [], ◌∷◌, arith, Text, bytes,
  text_eq, is_empty, keep, any, all, lookup, label,
}

-- The condition Ready is not true.
abbrev is_not_ready : Text × ConditionStatus → Bool
is_not_ready (t, status_true) = false
is_not_ready (t, status_false) = text_eq t (bytes "Ready")
is_not_ready (t, status_unknown) = text_eq t (bytes "Ready")

-- The node has the label with this value.
abbrev has_entry : Node → Text × Text → Bool
has_entry n (k, v) = elim (lookup k n.labels) [ none ↦ false | some w ↦ text_eq w v ]

-- The node is not cordoned, it is ready, and it has every label of the selector.
abbrev pub can_place : Labels → Node → Bool
can_place sel n =
    not n.unschedulable && (not (any is_not_ready n.conditions) && all (has_entry n) sel)

-- No entry of the selector has an empty value.
abbrev pub HasValues : Labels → Type 0
HasValues sel = all (λ e. not (is_empty e.1)) sel ≡ true

module _ {A : Type 0} {p q : A → Bool} where
  pub any_cong : (xs : List A) → ((x : A) → p x ≡ q x) → any p xs ≡ any q xs
  any_cong [] h = refl
  any_cong (x ∷ xs) h = ground (arith, h x, any_cong xs h)

  pub keep_cong : (xs : List A) → ((x : A) → p x ≡ q x) → keep p xs ≡ keep q xs
  keep_cong [] h = refl
  keep_cong (x ∷ xs) h = rw (h x, keep_cong xs h) refl

blocks-is_not_ready : (c : Text × ConditionStatus) → blocks c ≡ is_not_ready c
unfolding blocks
blocks-is_not_ready (t, status_true) = ground arith
blocks-is_not_ready (t, status_false) = ground arith
blocks-is_not_ready (t, status_unknown) = ground arith

entry_of_label :
    (o : Option Text) (v : Text)
    → is_empty v ≡ false
    → text_eq (elim o as (λ x. Text) [ none ↦ [] | some w ↦ w ]) v
      ≡ elim o as (λ x. Bool) [ none ↦ false | some w ↦ text_eq w v ]
unfolding is_empty text_eq
entry_of_label none [] h = ground (arith, h)
entry_of_label none (c ∷ v) h = refl
entry_of_label (some w) v h = refl

label-has_entry :
    (n : Node) (k v : Text) → is_empty v ≡ false → text_eq (label k n.labels) v ≡ has_entry n (k, v)
unfolding label
label-has_entry n k v h = entry_of_label (lookup k n.labels) v h

matches-has_entry :
    (n : Node) (sel : Labels) → HasValues sel → node_matches_selector n sel ≡ all (has_entry n) sel
unfolding node_matches_selector
matches-has_entry n [] h = refl
matches-has_entry n ((k, v) ∷ sel) h =
    ground (arith, h, label-has_entry n k v, matches-has_entry n sel)

-- The test of the scan is the placement, for a selector with values.
pub selected-can_place :
    (sel : Labels) (n : Node) → HasValues sel → selected sel n ≡ can_place sel n
unfolding selected node_is_schedulable
selected-can_place sel n h =
    ground (arith, any_cong n.conditions blocks-is_not_ready, matches-has_entry n sel h)
