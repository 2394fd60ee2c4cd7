-- ===== src/Queue/Admission.antt =====
-- What a workspace that passes the GPU gate can count on.
use mathlib.Core.Bool.{true≢false}
use exalsius_operator.Gpu.Availability.{SelectorAvailability, availability_for_selector}
use exalsius_operator.Kube.{Node, Pod, Labels}
use exalsius_operator.Prelude.{
  ◌≤◌, ◌≡◌, Bool, true, false, some, List, arith, is_nil, sym, ap, ◌∙◌, if◌then◌else◌, ◌<◌, ◌≢◌,
  ◌⊎◌, [], ◌∷◌, text_ltb, any, All, ◌-◌, inl, inr, ◌&&◌, Text, text_eq, text_eq_iff, Bool-cases,
}
use exalsius_operator.Queue.{
  Deployment, has_older_waiting_sibling, enter_waiting, gate_on, gate_gpu_offering, kept_pending,
  passed, goes_before, is_waiting, selector_key,
}
use exalsius_operator.Resources.{
  WorkspaceResourceSpec, merge_resources, gpu_selector_of, gpu_demand, effective_gpu_selector,
}
use exalsius_operator.Workspace.{Age, is_older_workspace, waiting}
use exalsius_operator.Gpu.Free.{held_by_pods, advertised, availability-free}
use exalsius_operator.Gpu.Gate.{has_gpu, availability-found}
use exalsius_operator.Gpu.Placeable.{can_place, HasValues}

-- The first of two workspaces was created before the second; of two of the same second it has the
-- lesser UID.
abbrev pub IsOlder : Age → Age → Type 0
IsOlder a b = (a.created < b.created) ⊎ ((a.created ≡ b.created) × (text_ltb a.uid b.uid ≡ true))

text_eq_same : (s t : Text) → s ≡ t → text_eq s t ≡ true
text_eq_same s t e = (text_eq_iff s t).1 e

text_eq_other : (s t : Text) → s ≢ t → text_eq s t ≡ false
text_eq_other s t h = elim (Bool-cases (text_eq s t)) [
  | inl e ↦ absurd (h ((text_eq_iff s t).0 e))
  | inr e ↦ e
]

older_first : (a b : Age) → IsOlder a b → is_older_workspace a b ≡ true
unfolding is_older_workspace
older_first a b h = ground (arith, h)

non_nil : (sel : Labels) → is_nil sel ≡ false → sel ≢ []
unfolding is_nil
non_nil sel h e = true≢false (sym (ap is_nil e) ∙ h)

module _ {Q : Type 0} where
  gate_on-ok :
      (wsd : Deployment Q) (resolved : WorkspaceResourceSpec Q) (avail : SelectorAvailability)
      (items : List (Deployment Q))
      → (gate_on wsd resolved avail (some items)).ok ≡ true
      → (avail.found ≡ true)
        × (gpu_demand resolved ≤ avail.free)
        × (has_older_waiting_sibling wsd (gpu_selector_of resolved) items ≡ false)
  unfolding gate_on enter_waiting
  gate_on-ok wsd resolved avail items h = ground arith

  -- Another workspace that waits for the same GPUs on the same cluster, and is older.
  abbrev pub WaitsBefore : Deployment Q → Labels → Deployment Q → Type 0
  WaitsBefore wsd sel s =
      (s.age.uid ≢ wsd.age.uid)
      × (s.status.phase ≡ waiting)
      × (s.cluster_name ≡ wsd.cluster_name)
      × (s.cluster_namespace ≡ wsd.cluster_namespace)
      × (effective_gpu_selector s.resources s.resolved_resources ≡ sel)
      × IsOlder s.age wsd.age

  goes_before-WaitsBefore :
      (wsd s : Deployment Q) (sel : Labels) → WaitsBefore wsd sel s → goes_before wsd sel s ≡ true
  unfolding goes_before
  goes_before-WaitsBefore wsd s sel (other, waits, name, in_namespace, same, older) = ground (
    arith,
    text_eq_other s.age.uid wsd.age.uid other,
    ap is_waiting waits,
    text_eq_same s.cluster_name wsd.cluster_name name,
    text_eq_same s.cluster_namespace wsd.cluster_namespace in_namespace,
    text_eq_same (selector_key (effective_gpu_selector s.resources s.resolved_resources))
        (selector_key sel) (ap selector_key same),
    older_first s.age wsd.age older,
  )

  nobody_before :
      (wsd : Deployment Q) (sel : Labels) (items : List (Deployment Q))
      → any (goes_before wsd sel) items ≡ false
      → All (λ s. ¬ WaitsBefore wsd sel s) items
  nobody_before wsd sel [] h = tt
  nobody_before wsd sel (s ∷ items) h =
      let here : goes_before wsd sel s ≡ false = ground (arith, h) in
      let later : any (goes_before wsd sel) items ≡ false = ground (arith, h) in
      (
        λ w. true≢false (sym (goes_before-WaitsBefore wsd s sel w) ∙ here),
        nobody_before wsd sel items later,
      )

  -- A workspace whose request names a GPU model or has a selector, with a value in every entry,
  -- passes the gate only if a pod with that selector can be placed on a node of its cluster that
  -- advertises a GPU, the nodes that the selector admits advertise as many GPUs beyond those held
  -- as it asks for, and no older workspace waits for the same selector on the same cluster. Of a
  -- pod only the one resource counts as held that is counted for its node.
  pub gate_gpu_offering-ok :
      (defaults : WorkspaceResourceSpec Q) (wsd : Deployment Q) (client : Bool) (ns : List Node)
      (ps : List Pod) (items : List (Deployment Q))
      → is_nil (gpu_selector_of (merge_resources defaults wsd.resources)) ≡ false
      → HasValues (gpu_selector_of (merge_resources defaults wsd.resources))
      → (gate_gpu_offering defaults wsd client (some ns) (some ps) (some items)).ok ≡ true
      → let resolved = merge_resources defaults wsd.resources in
        let selector = gpu_selector_of resolved in
        (any (λ n. can_place selector n && has_gpu n) ns ≡ true)
        × (gpu_demand resolved ≤ advertised selector ns - held_by_pods selector ns ps)
        × All (λ s. ¬ WaitsBefore wsd selector s) items
  unfolding gate_gpu_offering has_older_waiting_sibling
  gate_gpu_offering-ok defaults wsd true ns ps items n v h =
      let resolved = merge_resources defaults wsd.resources in
      let selector = gpu_selector_of resolved in
      let avail = availability_for_selector ns ps selector in
      let (placed, enough, first) = gate_on-ok wsd resolved avail items (
        ap (λ b. (if b then passed wsd else gate_on wsd resolved avail (some items)).ok) (sym n)
        ∙ h) in
      (
        sym (availability-found ns ps selector (non_nil selector n) v) ∙ placed,
        omega (arith, enough, availability-free ns ps selector v placed),
        nobody_before wsd selector items first,
      )
  gate_gpu_offering-ok defaults wsd false ns ps items n v h =
      absurd (true≢false (sym h ∙ ap (λ b. (if b then passed wsd else kept_pending wsd).ok) n))
