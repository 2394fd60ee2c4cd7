-- ===== src/Prerequisites.antt =====
-- internal/controller/workspaces/prerequisites.go: what the prerequisites of a class need on the
-- target cluster. ServiceSets and the ClusterDeployment are reduced to the fields that are read.
pub mod Summary
use exalsius_operator.Kube.{Fetched, found, not_found, get_failed}
use exalsius_operator.Prelude.{
  Bool, true, false, not, ◌&&◌, ◌||◌, Option, none, some, List, [], ◌∷◌, ◌++◌, Text, bytes, text_eq,
  is_empty, contains, any, lookup, insert, label, if◌then◌else◌,
}

pub data ServiceState : Type 0 where
  deployed service_failed other_state : ServiceState

pub record SpecService : Type 0 where
  pub template : Text
  pub namespace : Text

pub record StatusService : Type 0 where
  pub name : Text
  pub template : Text
  pub namespace : Text
  pub state : ServiceState
  pub failure_message : Text

pub record ServiceSet : Type 0 where
  pub spec_services : List SpecService
  pub status_services : List StatusService

-- The ClusterDeployment; `deleting` says that its deletion timestamp is set.
pub record ClusterDeployment : Type 0 where
  pub spec_services : List SpecService
  pub status_services : List StatusService
  pub deleting : Bool

-- A PrerequisiteSpec: the template, its version constraint and the namespace asked for.
pub record Prerequisite : Type 0 where
  pub template : Text
  pub version_constraint : Text
  pub namespace : Text

pub data PrerequisitePhase : Type 0 where
  prerequisite_pending prerequisite_installing prerequisite_satisfied : PrerequisitePhase
  prerequisite_failed : PrerequisitePhase

pub data Source : Type 0 where
  no_source workspace colony : Source

-- A status message, unformatted. The formatted text of `conflict` has the fragment by which the
-- source finds it again; a failure message of the platform is any text.
pub data Message : Type 0 where
  no_message : Message
  failure : Text → Message
  conflict : Text → Text → Source → Text → Message
  version_constraint_used : Message

pub record PrerequisiteStatus : Type 0 where
  pub name : Text
  pub phase : PrerequisitePhase
  pub source : Source
  pub namespace : Text
  pub message : Message

pub data Verdict : Type 0 where
  all_satisfied some_installing some_missing some_failed invalid some_conflict : Verdict

abbrev pub default_prerequisite_namespace : Text
default_prerequisite_namespace = bytes "default"

unfoldable pub effective_prerequisite_namespace : Prerequisite → Text
effective_prerequisite_namespace p =
    if is_empty p.namespace then default_prerequisite_namespace else p.namespace

-- An unset request accepts any namespace.
unfoldable pub prerequisite_namespace_conflict : Text → Text → Bool
prerequisite_namespace_conflict explicit_ns incumbent_ns =
    not (is_empty explicit_ns)
    && (not (is_empty incumbent_ns) && not (text_eq incumbent_ns explicit_ns))

-- The state and the message of the template's entry; an entry that is not there has neither.
unfoldable pub read_state : List StatusService → Text → ServiceState × Text
read_state [] t = (other_state, [])
read_state (s ∷ ss) t =
    if text_eq s.template t then (s.state, s.failure_message) else read_state ss t

unfoldable pub read_namespace : List SpecService → Text → Text
read_namespace [] t = []
read_namespace (s ∷ ss) t = if text_eq s.template t then s.namespace else read_namespace ss t

-- The maps that are filled from the services of the ClusterDeployment.
pub record Colony : Type 0 where
  pub known : Text → Bool
  pub deployed : Text → Bool
  pub namespace : Text → Text

abbrev is_deployed : ServiceState → Bool
is_deployed deployed = true
is_deployed _ = false

note_status : List StatusService → List (Text × Text) → List (Text × Text)
note_status [] m = m
note_status (s ∷ ss) m = note_status ss (insert s.template s.namespace m)

note_spec : List SpecService → List (Text × Text) → List (Text × Text)
note_spec [] m = m
note_spec (s ∷ ss) m =
    note_spec ss
      (elim (lookup s.template m) [ none ↦ insert s.template s.namespace m | some ns ↦ m ])

unfoldable pub colony_of : ClusterDeployment → Colony
unfolding note_status note_spec
colony_of cd = record {
  known = λ t.
      any (λ s. text_eq s.template t) cd.status_services
      || any (λ s. text_eq s.template t) cd.spec_services;
  deployed = λ t. any (λ s. text_eq s.template t && is_deployed s.state) cd.status_services;
  namespace = λ t. label t (note_spec cd.spec_services (note_status cd.status_services []));
}

-- The updates of `overall`.
abbrev pub to_failed : Verdict → Verdict
to_failed some_conflict = some_conflict
to_failed v = some_failed

abbrev pub unless_failed : Verdict → Verdict → Verdict
unless_failed w some_failed = some_failed
unless_failed w some_conflict = some_conflict
unless_failed w v = w

abbrev pub named : Prerequisite → PrerequisiteStatus
named p = record {
  name = p.template;
  phase = prerequisite_pending;
  source = no_source;
  namespace = [];
  message = no_message;
}

abbrev pub conflicting : Prerequisite → Source → Text → PrerequisiteStatus
conflicting p source ns = record (named p) {
  source = source;
  namespace = ns;
  phase = prerequisite_failed;
  message = conflict p.template ns source p.namespace;
}

abbrev pub by_state :
    Prerequisite → Text → Verdict → ServiceState × Text → Verdict × PrerequisiteStatus
by_state p ns overall (deployed, msg) = (
  overall,
  record (named p) { source = workspace; namespace = ns; phase = prerequisite_satisfied },
)
by_state p ns overall (service_failed, msg) = (
  to_failed overall,
  record (named p) {
    source = workspace;
    namespace = ns;
    phase = prerequisite_failed;
    message = failure msg;
  },
)
by_state p ns overall (other_state, msg) = (
  unless_failed some_installing overall,
  record (named p) { source = workspace; namespace = ns; phase = prerequisite_installing },
)

-- The first case: the operator's own ServiceSet is there.
abbrev pub own_set : ServiceSet → Prerequisite → Verdict → Verdict × PrerequisiteStatus
own_set ss p overall =
    let ns = read_namespace ss.spec_services p.template in
    if prerequisite_namespace_conflict p.namespace ns
    then (some_conflict, conflicting p workspace ns)
    else by_state p ns overall (read_state ss.status_services p.template)

-- The second and third cases: the colony provides the template, or nobody does.
abbrev pub no_set : Colony → Prerequisite → Verdict → Verdict × PrerequisiteStatus
no_set c p overall =
    let ns = c.namespace p.template in
    let clash = prerequisite_namespace_conflict p.namespace ns in
    if c.deployed p.template
    then (if clash then (some_conflict, conflicting p colony ns) else (
      overall,
      record (named p) { source = colony; namespace = ns; phase = prerequisite_satisfied },
    ))
    else (if c.known p.template
        then (if clash then (some_conflict, conflicting p colony ns) else (
          unless_failed some_installing overall,
          record (named p) { source = colony; namespace = ns; phase = prerequisite_installing },
        ))
        else (
          unless_failed some_missing overall,
          record (named p) {
            source = workspace;
            namespace = effective_prerequisite_namespace p;
            phase = prerequisite_pending;
          },
        ))

-- What the evaluation returns: an error of the API, or a verdict with the statuses.
pub data Evaluation : Type 0 where
  evaluation_error : Evaluation
  evaluated : Verdict → List PrerequisiteStatus → Evaluation

abbrev invalid_status : Prerequisite → PrerequisiteStatus
invalid_status p = record (named p) {
  phase = prerequisite_failed;
  message = version_constraint_used;
}

-- One round of the loop: an early return, or the verdict and the status to go on with.
pub data Round : Type 0 where
  return : Evaluation → Round
  continue : Verdict → PrerequisiteStatus → Round

abbrev pub go_on_with : Verdict × PrerequisiteStatus → Round
go_on_with (v, st) = continue v st

unfoldable pub evaluate_one : Colony → Fetched ServiceSet → Prerequisite → Verdict → Round
evaluate_one c fetched p overall =
    if is_empty p.version_constraint
    then (elim fetched [
      | found ss ↦ go_on_with (own_set ss p overall)
      | not_found ↦ go_on_with (no_set c p overall)
      | get_failed ↦ return evaluation_error
    ])
    else return (evaluated invalid (invalid_status p ∷ []))

unfoldable pub evaluate_loop :
    Colony
    → (Text → Fetched ServiceSet)
    → List Prerequisite
    → Verdict
    → List PrerequisiteStatus
    → Evaluation
evaluate_loop c sets [] overall statuses = evaluated overall statuses
evaluate_loop c sets (p ∷ ps) overall statuses = elim (evaluate_one c (sets p.template) p overall) [
  | return e ↦ e
  | continue v st ↦ evaluate_loop c sets ps v (statuses ++ st ∷ [])
]

-- evaluatePrerequisites, given the answers of the API: the ClusterDeployment, and the prerequisite
-- ServiceSet of a template.
unfoldable pub evaluate_prerequisites :
    Fetched ClusterDeployment → (Text → Fetched ServiceSet) → List Prerequisite → Evaluation
unfolding evaluate_loop colony_of
evaluate_prerequisites (found cd) sets ps = evaluate_loop (colony_of cd) sets ps all_satisfied []
evaluate_prerequisites not_found sets ps = evaluation_error
evaluate_prerequisites get_failed sets ps = evaluation_error

-- firstConflictPrerequisite and firstFailedPrerequisite
abbrev conflict_fragment : Text
conflict_fragment = bytes " is already installed in namespace "

unfoldable pub has_conflict_fragment : Message → Bool
has_conflict_fragment (conflict t ns s r) = true
has_conflict_fragment (failure m) = contains m conflict_fragment
has_conflict_fragment _ = false

abbrev pub is_failed : PrerequisitePhase → Bool
is_failed prerequisite_failed = true
is_failed _ = false

unfoldable pub first_failed_prerequisite : List PrerequisiteStatus → Option PrerequisiteStatus
first_failed_prerequisite [] = none
first_failed_prerequisite (s ∷ ss) =
    if is_failed s.phase then some s else first_failed_prerequisite ss

unfoldable pub first_conflict_prerequisite : List PrerequisiteStatus → Option PrerequisiteStatus
first_conflict_prerequisite [] = none
first_conflict_prerequisite (s ∷ ss) =
    if is_failed s.phase && has_conflict_fragment s.message
    then some s
    else first_conflict_prerequisite ss
