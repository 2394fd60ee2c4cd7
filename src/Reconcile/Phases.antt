-- ===== src/Reconcile/Phases.antt =====
-- Which phase may follow which in one run, and the rules for steps that go on or end.
use exalsius_operator.Run.ConditionType
use exalsius_operator.Run.{
  stop, Exit, M, modify, update_or_fail, status_of, set_phase, note, fail_with, with_status, Run,
  ◌>>◌, try_update,
}
use exalsius_operator.Run.Keeps.{Both, Stored, keep_stop, keep_update, leave, keep_try}
use exalsius_operator.Kube.{ConditionStatus}
use exalsius_operator.Prelude.{
  ℕ, ◌≡◌, sym, ◌∙◌, subst, Bool, true, false, not, ◌&&◌, arith, Text, text_eq,
}
use exalsius_operator.Reconcile.{skips_gate}
use exalsius_operator.Reconcile.Sound.{
  is_phase_running, IsSound, noted-IsSound, noted_phase, at_phase-IsSound, mark_failed_phase,
  mark_failed-IsSound, become_running-IsSound, become_running_phase,
}
use exalsius_operator.Run.Ensures.{Triple, Triple-bind}
use exalsius_operator.Workspace.{
  Phase, is_phase_failed, Status, phase_running, deploying, phase_pending, unset, waiting,
  mark_failed, phase_failed, installing_prerequisites,
}
use exalsius_operator.Watch.{become_running}
use exalsius_operator.Deploy.{start_deploying}

abbrev pub is_active : Phase → Bool
is_active deploying = true
is_active phase_running = true
is_active _ = false

-- Whether a run on a workspace in the first phase may leave the second one.
unfoldable pub may_follow : Phase → Phase → Bool
may_follow p phase_running = is_active p
may_follow p deploying = not (is_phase_running p) && not (is_phase_failed p)
may_follow p waiting = not (skips_gate p)
may_follow p phase_pending = not (is_phase_running p)
may_follow unset unset = true
may_follow p unset = false
may_follow p _ = true

-- The status while the run goes on, and at its end.
abbrev pub Unmoved : Phase → Status → Type 0
Unmoved p st = (st.phase ≡ p) × IsSound st

abbrev pub Moved : Phase → Status → Type 0
Moved p st = (may_follow p st.phase ≡ true) × IsSound st

pub may_wait : (p : Phase) → is_phase_running p ≡ false → may_follow p phase_pending ≡ true
unfolding may_follow
may_wait p n = ground arith

pub may_install : (p : Phase) → may_follow p installing_prerequisites ≡ true
unfolding may_follow
may_install p = ground arith

may_fail : (p : Phase) → may_follow p phase_failed ≡ true
unfolding may_follow
may_fail p = ground arith

may_follow_refl : (p : Phase) → may_follow p p ≡ true
unfolding may_follow
may_follow_refl p = ground arith

module _ (p : Phase) where
  pub moved : (st : Status) → Unmoved p st → Moved p st
  moved st (e, s) = (subst (λ q. may_follow p q ≡ true) (sym e) (may_follow_refl p), s)

  -- A step that goes on where the phase is `p` still.
  abbrev pub Passes : {A : Type 0} → M A → Type 0
  Passes {A} m = Triple (Both (Unmoved p)) m (λ a. Both (Unmoved p)) (Stored (Moved p))

  -- A step of a run that only ends.
  abbrev pub Leaves : {A : Type 0} → M A → Type 0
  Leaves {A} m = Triple (Both (Moved p)) m (λ a. Both (Moved p)) (Stored (Moved p))

  module _ (now : ℕ) (t : Text) (s : ConditionStatus) (reason : Text) where
    pub note-Passes : text_eq ConditionType.ready t ≡ false → Passes (note now t s reason)
    note-Passes n = record {
      at = λ r h. (
        (
          noted_phase now t s reason r.object.generation (status_of r.object) ∙ h.0.0,
          noted-IsSound now t s reason r.object.generation (status_of r.object) n h.0.1,
        ),
        h.1,
      );
    }

    pub note-Leaves : text_eq ConditionType.ready t ≡ false → Leaves (note now t s reason)
    note-Leaves n = record {
      at = λ r h. (
        (
          subst (λ q. may_follow p q ≡ true)
              (sym (noted_phase now t s reason r.object.generation (status_of r.object))) h.0.0,
          noted-IsSound now t s reason r.object.generation (status_of r.object) n h.0.1,
        ),
        h.1,
      );
    }

  -- The end of a run: the status is written, and the run stops.
  module _ {A : Type 0} {Q : A → Run → Type 0} (e : Exit) where
    pub stop-Leaves : Triple (Both (Moved p)) (stop {A = A} e) Q (Stored (Moved p))
    stop-Leaves = keep_stop (Moved p) (Moved p) (λ st h. h)

    pub update-Leaves :
        Triple (Both (Moved p)) (update_or_fail >> stop {A = A} e) Q (Stored (Moved p))
    update-Leaves = Triple-bind (keep_update (Moved p) (Moved p) (λ st h. h)) (λ u. stop-Leaves)

    pub try-Leaves : Triple (Both (Moved p)) (try_update >> stop {A = A} e) Q (Stored (Moved p))
    try-Leaves = Triple-bind (keep_try (Moved p)) (λ u. stop-Leaves)

    pub stop-Passes : Triple (Both (Unmoved p)) (stop {A = A} e) Q (Stored (Moved p))
    stop-Passes = keep_stop (Unmoved p) (Moved p) moved

  pub update-Passes : Passes update_or_fail
  update-Passes = keep_update (Unmoved p) (Moved p) moved

  pub mark_failed-Moved :
      (st : Status) (reason : Text) → IsSound st → Moved p (mark_failed reason st)
  mark_failed-Moved st reason h = (
    subst (λ q. may_follow p q ≡ true) (sym (mark_failed_phase st reason)) (may_fail p),
    mark_failed-IsSound st reason h,
  )

  may_run : is_active p ≡ true → may_follow p phase_running ≡ true
  unfolding may_follow
  may_run a = ground arith

  pub become_running-Moved :
      (st : Status)
      → is_active p ≡ true
      → (now generation : ℕ) → IsSound st
      → Moved p (become_running now generation st)
  become_running-Moved st a now generation h = (
    subst (λ q. may_follow p q ≡ true) (sym (become_running_phase st now generation)) (may_run a),
    become_running-IsSound st now generation h,
  )

  pub start_deploying-Moved :
      (st : Status)
      → may_follow p deploying ≡ true
      → (generation : ℕ) → IsSound st
      → Moved p (start_deploying generation st)
  start_deploying-Moved st d generation h = (
    d,
    record { unique = h.unique; explained = λ e. ground arith; announced = λ e. ground arith },
  )

  -- A run that fails, or changes to a phase that may follow.
  pub fail_with-Leaves :
      (reason : Text)
      → Triple (Both (Unmoved p)) (fail_with reason) (λ u. Both (Moved p)) (Stored (Moved p))
  fail_with-Leaves reason =
      leave (Unmoved p) (Moved p) moved (with_status (mark_failed reason))
        (λ o h. mark_failed-Moved (status_of o) reason h.1)

  pub set_phase-Leaves :
      (q : Phase)
      → may_follow p q ≡ true
      → is_phase_failed q ≡ false
      → is_phase_running q ≡ false
      → Triple (Both (Unmoved p)) (modify (set_phase q)) (λ u. Both (Moved p)) (Stored (Moved p))
  set_phase-Leaves q m f r =
      leave (Unmoved p) (Moved p) moved (set_phase q)
        (λ o h. (m, at_phase-IsSound (status_of o) q f r h.1))
