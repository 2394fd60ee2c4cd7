-- ===== src/Run.antt =====
-- One run of the workspace controller
-- (internal/controller/workspaces/workspacedeployment_controller.go): the WorkspaceDeployment that it
-- works on, what the other systems answer, and the monad of the steps. A step changes the object in
-- memory, asks for writes, and goes on or ends the run.
pub mod ConditionType
pub mod Ensures
pub mod Keeps
use exalsius_operator.Feasibility.{FeasibilityStatus}
use exalsius_operator.Inject.{ResourceInjectionMap}
use exalsius_operator.Kube.{ConditionStatus, Labels}
use exalsius_operator.Merge.{RawValues}
use exalsius_operator.Prelude.{ℕ, Bool, true, Option, List, [], ◌∷◌, ◌++◌, Text, if◌then◌else◌}
use exalsius_operator.Prerequisites.{Prerequisite, PrerequisiteStatus}
use exalsius_operator.Queue.{Deployment}
use exalsius_operator.Resources.{WorkspaceResourceSpec}
use exalsius_operator.Teardown.{Call}
use exalsius_operator.Values.{Fields}
use exalsius_operator.Workspace.{Phase, Status, set_condition, mark_failed}

-- An access entry as the routing provider gives it.
pub record RouteEntry : Type 0 where
  pub name : Text
  pub url : Text
  pub ready : Bool
  pub message : Text

-- The WorkspaceDeployment: `deployment` has what the gate reads, its status with the phase and the
-- conditions included.
pub record Object : Type 0 where
  pub deployment : Deployment ℕ
  pub name : Text
  pub class_ref : Text
  pub values : RawValues
  pub suspend : Bool
  pub is_deleted : Bool
  pub has_finalizer : Bool
  pub generation : ℕ
  pub prerequisites : List PrerequisiteStatus
  pub feasibility : Option FeasibilityStatus
  pub access : List RouteEntry
  pub service_entry_name : Text

-- The WorkspaceClass.
pub record WorkspaceClass : Type 0 where
  pub service_template : Text
  pub default_resources : WorkspaceResourceSpec ℕ
  pub default_values : RawValues
  pub resource_injection : Option ResourceInjectionMap
  pub prerequisites : List Prerequisite
  pub access_endpoints : List Text

-- The service that a workspace's ServiceSet installs.
pub record ServiceEntry : Type 0 where
  pub name : Text
  pub namespace : Text
  pub template : Text
  pub values : Fields

-- The writes on other objects.
pub data Effect : Type 0 where
  update_status add_finalizer : Effect
  create_prerequisite_set : Text → Effect
  write_namespace : Labels → Effect
  apply_service_set : ServiceEntry → Effect
  clean_up : List Call → Effect

-- How a run ends: done, again after a number of seconds, with an error, or by a panic.
pub data Exit : Type 0 where
  returned returned_error panicked : Exit
  requeue_after : ℕ → Exit

-- `object` is the object in memory, `stored` the one that the API server has. `replies` says of the
-- coming status updates whether they succeed; beyond its end they do.
pub record Run : Type 0 where
  pub object : Object
  pub stored : Object
  pub replies : List Bool
  pub effects : List Effect

pub data Ran (A : Type 0) : Type 0 where
  continue : A → Run → Ran A
  exit : Exit → Run → Ran A

abbrev pub M : Type 0 → Type 0
M A = Run → Ran A

infixl 5 ◌>>=◌ ◌>>◌
abbrev pub ◌>>=◌ : {A B : Type 0} → M A → (A → M B) → M B
◌>>=◌ m f r = elim (m r) [ continue a r' ↦ f a r' | exit e r' ↦ exit e r' ]

abbrev pub ◌>>◌ : {A B : Type 0} → M A → M B → M B
m >> k = m >>= λ _. k

abbrev pub pure : {A : Type 0} → A → M A
pure a r = continue a r

abbrev pub done : M (Unit {0})
done r = continue tt r

abbrev pub stop : {A : Type 0} → Exit → M A
stop e r = exit e r

abbrev pub object_of : M Object
object_of r = continue r.object r

abbrev pub modify : (Object → Object) → M (Unit {0})
modify f r = continue tt (record r { object = f r.object })

abbrev pub perform : Effect → M (Unit {0})
perform e r = continue tt (record r { effects = r.effects ++ e ∷ [] })

abbrev pub next_reply : List Bool → Bool
next_reply [] = true
next_reply (b ∷ bs) = b

abbrev pub other_replies : List Bool → List Bool
other_replies [] = []
other_replies (b ∷ bs) = bs

-- `r.Status().Update`: whether it succeeds. A status that is written is the one in memory.
unfoldable pub write_status : M Bool
write_status r =
    let ok = next_reply r.replies in
    continue ok (record r {
      stored = if ok then r.object else r.stored;
      replies = other_replies r.replies;
      effects = r.effects ++ update_status ∷ [];
    })

-- A status update whose error ends the run, and one whose error is ignored.
unfoldable pub update_or_fail : M (Unit {0})
update_or_fail = do ok ← write_status; if ok then done else stop returned_error

unfoldable pub try_update : M (Unit {0})
try_update = do ok ← write_status; done

abbrev pub when : Bool → M (Unit {0}) → M (Unit {0})
when b m = if b then m else done

-- Changes of the status.
abbrev pub status_of : Object → Status
status_of o = o.deployment.status

abbrev pub with_status : (Status → Status) → Object → Object
with_status f o = record o { deployment = record o.deployment { status = f o.deployment.status } }

abbrev pub phase_of : Object → Phase
phase_of o = o.deployment.status.phase

abbrev pub set_phase : Phase → Object → Object
set_phase p o = with_status (λ st. record st { phase = p }) o

-- setCondition at the time `now`, with the generation of the object
unfoldable pub noted : ℕ → Text → ConditionStatus → Text → ℕ → Status → Status
noted now t s reason generation st =
    set_condition now
      (record {
        condition_type = t;
        status = s;
        reason = reason;
        observed_generation = generation;
        last_transition_time = now;
      })
      st

abbrev pub note : ℕ → Text → ConditionStatus → Text → M (Unit {0})
note now t s reason r = modify (with_status (noted now t s reason r.object.generation)) r

-- markFailed on the object
abbrev pub fail_with : Text → M (Unit {0})
fail_with reason = modify (with_status (mark_failed reason))

-- requeueInterval
abbrev pub requeue_interval : ℕ
requeue_interval = 15
