-- ===== src/Queue.antt =====
-- The GPU gate of the workspace controller (gateGPUOffering, enterWaiting and
-- hasOlderWaitingSibling of internal/controller/workspaces/workspacedeployment_controller.go).
pub mod Admission
use exalsius_operator.Gpu.Availability.{SelectorAvailability, availability_for_selector}
use exalsius_operator.Gpu.Offerings.{selector_identity}
use exalsius_operator.Kube.{Labels, Node, Pod, found}
use exalsius_operator.Prelude.{
  Bool, true, false, not, ◌&&◌, Option, none, some, List, Text, bytes, text_eq, any, is_nil, ltb,
  if◌then◌else◌,
}
use exalsius_operator.Resources.{
  WorkspaceResourceSpec, merge_resources, gpu_selector_of, gpu_demand, effective_gpu_selector,
}
use exalsius_operator.Workspace.{
  Phase, Status, mark_failed, Age, is_older_workspace, phase_pending, waiting,
}

-- A WorkspaceDeployment as the gate reads it.
pub record Deployment (Q : Type 0) : Type 0 where
  pub age : Age
  pub cluster_name : Text
  pub cluster_namespace : Text
  pub resources : Option (WorkspaceResourceSpec Q)
  pub resolved_resources : Option (WorkspaceResourceSpec Q)
  pub status : Status

-- What the gate leaves: whether the workspace may go on, its status and resolved resources, whether
-- the status is written, and whether the reconciliation comes back.
pub record Gated (Q : Type 0) : Type 0 where
  pub ok : Bool
  pub status : Status
  pub resolved_resources : Option (WorkspaceResourceSpec Q)
  pub writes : Bool
  pub requeues : Bool

abbrev pub is_waiting : Phase → Bool
is_waiting waiting = true
is_waiting _ = false

-- selectorKey, the same text as selectorIdentity
unfoldable pub selector_key : Labels → Text
selector_key sel = selector_identity sel

module _ {Q : Type 0} where
  -- One round of the loop: whether a sibling makes the workspace wait.
  unfoldable pub goes_before : Deployment Q → Labels → Deployment Q → Bool
  goes_before wsd selector s =
      not (text_eq s.age.uid wsd.age.uid)
      && (is_waiting s.status.phase
          && ((text_eq s.cluster_name wsd.cluster_name
                && text_eq s.cluster_namespace wsd.cluster_namespace)
              && (text_eq (selector_key (effective_gpu_selector s.resources s.resolved_resources))
                    (selector_key selector)
                  && is_older_workspace s.age wsd.age)))

  -- hasOlderWaitingSibling
  unfoldable pub has_older_waiting_sibling : Deployment Q → Labels → List (Deployment Q) → Bool
  has_older_waiting_sibling wsd selector items = any (goes_before wsd selector) items

  abbrev pub passed : Deployment Q → Gated Q
  passed wsd = record {
    ok = true;
    status = wsd.status;
    resolved_resources = wsd.resolved_resources;
    writes = false;
    requeues = false;
  }

  -- The listing of the siblings failed: the reconciliation comes back.
  abbrev pub retried : Deployment Q → Gated Q
  retried wsd = record (passed wsd) { ok = false; requeues = true }

  abbrev pub kept_pending : Deployment Q → Gated Q
  kept_pending wsd = record (retried wsd) {
    status = record wsd.status { phase = phase_pending };
    writes = true;
  }

  -- The selector matches no GPU: the workspace fails.
  abbrev pub unavailable : Deployment Q → Gated Q
  unavailable wsd = record (passed wsd) {
    ok = false;
    status = mark_failed (bytes "GpuOfferingUnavailable") wsd.status;
    writes = true;
  }

  -- enterWaiting
  unfoldable pub enter_waiting : Deployment Q → WorkspaceResourceSpec Q → Gated Q
  enter_waiting wsd resolved = record (retried wsd) {
    status = record wsd.status { phase = waiting };
    resolved_resources = some resolved;
    writes = true;
  }

  -- The gate behind the reads of nodes and pods; the listing of the workspaces may fail.
  unfoldable pub gate_on :
      Deployment Q
      → WorkspaceResourceSpec Q
      → SelectorAvailability
      → Option (List (Deployment Q))
      → Gated Q
  gate_on wsd resolved avail siblings =
      let demand = gpu_demand resolved in
      if avail.found
      then (if ltb 0 demand && ltb avail.free demand
          then enter_waiting wsd resolved
          else elim siblings [
            | none ↦ retried wsd
            | some items ↦
                if has_older_waiting_sibling wsd (gpu_selector_of resolved) items
                then enter_waiting wsd resolved
                else passed wsd
          ])
      else unavailable wsd

  -- gateGPUOffering: `child_client` says whether the child cluster can be reached, and the listings
  -- of its nodes and pods may fail.
  unfoldable pub gate_gpu_offering :
      WorkspaceResourceSpec Q
      → Deployment Q
      → Bool
      → Option (List Node)
      → Option (List Pod)
      → Option (List (Deployment Q))
      → Gated Q
  gate_gpu_offering defaults wsd child_client nodes pods siblings =
      let resolved = merge_resources defaults wsd.resources in
      let selector = gpu_selector_of resolved in
      if is_nil selector
      then passed wsd
      else (if child_client
          then (elim nodes [
            | none ↦ kept_pending wsd
            | some ns ↦ elim pods [
              | none ↦ kept_pending wsd
              | some ps ↦ gate_on wsd resolved (availability_for_selector ns ps selector) siblings
            ]
          ])
          else kept_pending wsd)
