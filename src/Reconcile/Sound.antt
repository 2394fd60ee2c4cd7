-- ===== src/Reconcile/Sound.antt =====
-- Sound statuses of a workspace, and the changes that the controller makes to a status.
use exalsius_operator.Run.ConditionType
use exalsius_operator.Kube.{ConditionStatus, is_true, status_true}
use exalsius_operator.Prelude.{
  ℕ, ◌≡◌, refl, Bool, true, false, Option, none, some, List, arith, Text, text_eq, sym, subst,
  bytes, text_eq_iff, if◌then◌else◌,
}
use exalsius_operator.Run.{noted}
use exalsius_operator.Watch.{become_running}
use exalsius_operator.Workspace.{
  Phase, is_phase_failed, Condition, FailureContext, Status, set_condition, mark_failed,
  phase_running, or_pending, phase_failed,
}
use exalsius_operator.Workspace.Conditions.{
  find_condition, IsUnique, set_condition-IsUnique, updated, set_condition-find_condition,
  set_condition_frame,
}
use exalsius_operator.Run.ConditionType.{helm_release_ready}

abbrev pub is_phase_running : Phase → Bool
is_phase_running phase_running = true
is_phase_running _ = false

abbrev pub has_context : Option FailureContext → Bool
has_context none = false
has_context (some c) = true

abbrev holds : Option Condition → Bool
holds none = false
holds (some c) = is_true c.status

abbrev pub is_ready : List Condition → Bool
is_ready cs = holds (find_condition ConditionType.ready cs)

-- One condition of a type; a failed workspace has its failure context; a running one is Ready.
pub record IsSound (st : Status) : Type 0 where
  pub unique : IsUnique st.conditions
  pub explained : is_phase_failed st.phase ≡ true → has_context st.failure_context ≡ true
  pub announced : is_phase_running st.phase ≡ true → is_ready st.conditions ≡ true

module _ (now : ℕ) (t : Text) (s : ConditionStatus) (reason : Text) (generation : ℕ)
    (st : Status) where
  pub noted-IsSound :
      text_eq ConditionType.ready t ≡ false
      → IsSound st
      → IsSound (noted now t s reason generation st)
  unfolding noted set_condition
  noted-IsSound n h =
      let c : Condition = record {
        condition_type = t;
        status = s;
        reason = reason;
        observed_generation = generation;
        last_transition_time = now;
      } in
      record {
        unique = set_condition-IsUnique now c st h.unique;
        explained = h.explained;
        announced = λ r.
            subst (λ o. holds o ≡ true)
              (sym (
                set_condition_frame now c ConditionType.ready st
                  (λ e. ground (arith, text_eq_iff ConditionType.ready t))))
              (h.announced r);
      }

  pub noted_phase : (noted now t s reason generation st).phase ≡ st.phase
  unfolding noted set_condition
  noted_phase = refl

holds-updated :
    (now : ℕ) (c : Condition) (o : Option Condition)
    → holds (some (updated now c o)) ≡ is_true c.status
holds-updated now c none = refl
holds-updated now c (some old) = refl

phase_failed_of : (p : Phase) → is_phase_failed p ≡ true → p ≡ phase_failed
phase_failed_of p h = ground arith

module _ (st : Status) where
  pub mark_failed_phase : (reason : Text) → (mark_failed reason st).phase ≡ phase_failed
  unfolding mark_failed
  mark_failed_phase reason = ground (arith, phase_failed_of st.phase)

  pub mark_failed-IsSound : (reason : Text) → IsSound st → IsSound (mark_failed reason st)
  unfolding mark_failed
  mark_failed-IsSound reason h = go (is_phase_failed st.phase) st.failure_context
    where
      captured : Status
      captured = record st {
        phase = phase_failed;
        failure_context =
            some (record { phase_when_failed = or_pending st.phase; reason = reason });
      }

      captured-IsSound : IsSound captured
      captured-IsSound = record {
        unique = h.unique;
        explained = λ e. refl;
        announced = λ e. ground arith;
      }

      go :
          (b : Bool) (o : Option FailureContext)
          → IsSound (if b then (elim o [ none ↦ captured | some fc ↦ st ]) else captured)
      go true none = captured-IsSound
      go true (some c) = h
      go false o = captured-IsSound

  pub become_running-IsSound :
      (now generation : ℕ) → IsSound st → IsSound (become_running now generation st)
  unfolding become_running noted set_condition
  become_running-IsSound now generation h =
      let st' : Status = record st { phase = phase_running; failure_context = none } in
      let c : Text → Text → Condition = λ t reason. record {
        condition_type = t;
        status = status_true;
        reason = reason;
        observed_generation = generation;
        last_transition_time = now;
      } in
      let released = c ConditionType.helm_release_ready (bytes "HelmReleaseDeployed") in
      let ready = c ConditionType.ready (bytes "DeploymentReady") in
      let st'' = set_condition now released st' in
      record {
        unique =
            set_condition-IsUnique now ready st''
              (set_condition-IsUnique now released st' h.unique);
        explained = λ e. ground arith;
        announced = λ e.
            subst (λ o. holds o ≡ true) (sym (set_condition-find_condition now ready st''))
              (holds-updated now ready (find_condition ConditionType.ready st''.conditions));
      }

  pub become_running_phase :
      (now generation : ℕ) → (become_running now generation st).phase ≡ phase_running
  unfolding become_running noted set_condition
  become_running_phase now generation = refl

  pub at_phase-IsSound :
      (p : Phase)
      → is_phase_failed p ≡ false
      → is_phase_running p ≡ false
      → IsSound st
      → IsSound (record st { phase = p })
  at_phase-IsSound p n m h = record {
    unique = h.unique;
    explained = λ e. ground arith;
    announced = λ e. ground arith;
  }
