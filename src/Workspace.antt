-- ===== src/Workspace.antt =====
-- The status of a WorkspaceDeployment (api/workspaces/v1/workspacedeployment_types.go), how the
-- controller writes conditions and failures into it (setCondition, markFailed), and the order in
-- which waiting workspaces are served (isOlderWorkspace). A text that is only shown to people, such
-- as a message, is left out; the snapshots inside a failure context are left out too.
pub mod Conditions
pub mod Order
use exalsius_operator.Prelude.{
  ℕ, Bool, List, [], ◌∷◌, Option, none, some, Text, text_eq, true, false, text_ltb, ltb, ◌==◌,
  if◌then◌else◌,
}
use exalsius_operator.Kube.{ConditionStatus, status_unknown, status_false, status_true}

pub data Phase : Type 0 where
  unset phase_pending installing_prerequisites waiting deploying phase_running : Phase
  phase_failed deleting : Phase

abbrev pub is_phase_failed : Phase → Bool
is_phase_failed phase_failed = true
is_phase_failed _ = false

-- The phase that a failure is recorded under: an unset one counts as pending.
unfoldable pub or_pending : Phase → Phase
or_pending unset = phase_pending
or_pending p = p

pub record Condition : Type 0 where
  pub condition_type : Text
  pub status : ConditionStatus
  pub reason : Text
  pub observed_generation : ℕ
  pub last_transition_time : ℕ

pub record FailureContext : Type 0 where
  pub phase_when_failed : Phase
  pub reason : Text

pub record Status : Type 0 where
  pub phase : Phase
  pub conditions : List Condition
  pub failure_context : Option FailureContext
  pub observed_generation : ℕ

-- The comparison of two condition statuses.
abbrev pub same_status : ConditionStatus → ConditionStatus → Bool
same_status status_true status_true = true
same_status status_false status_false = true
same_status status_unknown status_unknown = true
same_status _ _ = false

-- The new condition in the place of an existing one: the transition time stays where the status
-- stays.
abbrev pub replaced : Condition → Condition → Condition
replaced c existing = record c {
  last_transition_time =
      if same_status existing.status c.status
      then existing.last_transition_time
      else c.last_transition_time;
}

-- The loop of setCondition: the first condition of the type is replaced, and a missing one is
-- appended.
unfoldable pub put_condition : Condition → List Condition → List Condition
put_condition c [] = c ∷ []
put_condition c (existing ∷ rest) =
    let others = put_condition c rest in
    if text_eq existing.condition_type c.condition_type
    then replaced c existing ∷ rest
    else existing ∷ others

-- setCondition at the time `now`
unfoldable pub set_condition : ℕ → Condition → Status → Status
set_condition now c st = record st {
  conditions = put_condition (record c { last_transition_time = now }) st.conditions;
}

-- markFailed, with the phase and the reason of buildFailureContext. The first capture wins.
unfoldable pub mark_failed : Text → Status → Status
mark_failed reason st =
    let captured : Status = record st {
      phase = phase_failed;
      failure_context = some (record { phase_when_failed = or_pending st.phase; reason = reason });
    } in
    if is_phase_failed st.phase
    then (elim st.failure_context [ none ↦ captured | some fc ↦ st ])
    else captured

-- What orders two workspaces: the creation time in seconds and the UID.
pub record Age : Type 0 where
  pub created : ℕ
  pub uid : Text

-- isOlderWorkspace
unfoldable pub is_older_workspace : Age → Age → Bool
is_older_workspace a b =
    if a.created == b.created then text_ltb a.uid b.uid else ltb a.created b.created
