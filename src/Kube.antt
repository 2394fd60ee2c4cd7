-- ===== src/Kube.antt =====
-- The parts of Kubernetes objects that the operator reads: nodes and pods. Amounts of a resource
-- are the values of `Quantity.Value()`; the API server rejects negative ones, so they are ℕ.
use exalsius_operator.Prelude.{
  ℕ, Text, bytes, List, Bool, true, false, text_eq, not, ◌&&◌, any, lookup, none, some, is_empty,
}

pub data ConditionStatus : Type 0 where
  status_true : ConditionStatus
  status_false : ConditionStatus
  status_unknown : ConditionStatus

abbrev pub is_true : ConditionStatus → Bool
is_true status_true = true
is_true status_false = false
is_true status_unknown = false

abbrev pub is_false : ConditionStatus → Bool
is_false status_true = false
is_false status_false = true
is_false status_unknown = false

abbrev pub Labels : Type 0
Labels = List (Text × Text)

abbrev pub Resources : Type 0
Resources = List (Text × ℕ)

pub record Node : Type 0 where
  pub name : Text
  pub labels : Labels
  pub unschedulable : Bool
  pub conditions : List (Text × ConditionStatus)
  pub allocatable : Resources

pub data PodPhase : Type 0 where
  pending running succeeded failed : PodPhase

-- `containers` has the resource requests of each container.
pub record Pod : Type 0 where
  pub node_name : Text
  pub phase : PodPhase
  pub containers : List Resources

abbrev node_ready : Text
node_ready = bytes "Ready"

-- A condition by which a node cannot accept workloads.
unfoldable pub blocks : Text × ConditionStatus → Bool
blocks (t, s) = text_eq t node_ready && not (is_true s)

unfoldable pub node_is_schedulable : Node → Bool
unfolding blocks
node_is_schedulable n = not n.unschedulable && not (any blocks n.conditions)

abbrev is_finished : PodPhase → Bool
is_finished succeeded = true
is_finished failed = true
is_finished _ = false

unfoldable pub pod_consumes : Pod → Bool
pod_consumes p = not (is_empty p.node_name) && not (is_finished p.phase)

-- `list[name].Value()`, 0 for a resource that is not there
unfoldable pub amount : Text → Resources → ℕ
amount k m = elim (lookup k m) [ none ↦ 0 | some v ↦ v ]

-- The answer of an API read.
pub data Fetched {ℓ} (A : Type ℓ) : Type ℓ where
  found : A → Fetched A
  not_found : Fetched A
  get_failed : Fetched A
