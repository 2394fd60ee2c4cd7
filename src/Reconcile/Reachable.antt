-- ===== src/Reconcile/Reachable.antt =====
-- The life of a workspace: runs of the controller, with edits of its specification between them.
use mathlib.Core.Bool.{true≢false}
use exalsius_operator.World.{World}
use exalsius_operator.Prelude.{
  ℕ, ◌≡◌, sym, subst, Bool, ◌||◌, List, Text, ◌∙◌, true, false, arith, inl, inr, Bool-cases,
}
use exalsius_operator.Reconcile.{reconcile}
use exalsius_operator.Reconcile.Sound.{IsSound, is_phase_running}
use exalsius_operator.Reconcile.Transitions.{reconcile-IsSound, reconcile-may_follow}
use exalsius_operator.Run.{Object, status_of, phase_of}
use exalsius_operator.Workspace.{Phase, deploying}
use exalsius_operator.Reconcile.Phases.{is_active, may_follow}

abbrev pub is_deploying : Phase → Bool
is_deploying deploying = true
is_deploying _ = false

deploying_of : (p : Phase) → is_phase_running p ≡ false → is_active p ≡ true → is_deploying p ≡ true
deploying_of p n a = ground arith

or_left : (a b : Bool) → a ≡ true → (a || b) ≡ true
or_left a b h = ground arith

-- The phases that the stored object goes through. An edit changes anything but the status.
pub data History (show : ℕ → Text) (hex : ℕ → Text → Text) (start : Object) : Object → Type 0 where
  begins : History show hex start start
  edited :
      (o o' : Object)
      → History show hex start o
      → status_of o' ≡ status_of o
      → History show hex start o'
  ran :
      (o : Object) (w : World) (replies : List Bool)
      → History show hex start o
      → History show hex start (reconcile show hex w replies o).1.stored

module _ (show : ℕ → Text) (hex : ℕ → Text → Text) (start : Object) where
  -- Whether a stored object of the history has such a phase.
  unfoldable pub visits : (Phase → Bool) → {o : Object} → History show hex start o → Bool
  visits is begins = is (phase_of start)
  visits is (edited o o' h e) = visits is h
  visits is (ran o w replies h) =
      visits is h || is (phase_of (reconcile show hex w replies o).1.stored)

  -- From a workspace with a sound status, such as a new one, every history of runs and edits leads to
  -- a sound status: at most one condition of a type, a failure context where the workspace has failed,
  -- and the condition Ready true where it is running.
  History-IsSound :
      {o : Object} → IsSound (status_of start) → History show hex start o → IsSound (status_of o)
  History-IsSound s begins = s
  History-IsSound s (edited o o' h e) = subst IsSound (sym e) (History-IsSound s h)
  History-IsSound s (ran o w replies h) =
      reconcile-IsSound show hex w replies o (History-IsSound s h)

  active_next :
      (p q : Phase) → may_follow p q ≡ true → is_phase_running q ≡ true → is_active p ≡ true
  unfolding may_follow
  active_next p q m r = ground arith

  visits_now :
      (is : Phase → Bool) {o : Object} (h : History show hex start o)
      → is (phase_of o) ≡ true
      → visits is h ≡ true
  unfolding visits
  visits_now is begins e = e
  visits_now is (edited o o' h q) e = visits_now is h (subst (λ st. is st.phase ≡ true) q e)
  visits_now is (ran o w replies h) e = ground arith

  -- A workspace that has not started as a running one runs only after it was deploying: its history
  -- has a stored object in the phase Deploying.
  pub running-visits :
      {o : Object} (h : History show hex start o)
      → IsSound (status_of start)
      → is_phase_running (phase_of start) ≡ false
      → is_phase_running (phase_of o) ≡ true
      → visits is_deploying h ≡ true
  unfolding visits
  running-visits begins s n r = absurd (true≢false (sym r ∙ n))
  running-visits (edited o o' h e) s n r =
      running-visits h s n (subst (λ st. is_phase_running st.phase ≡ true) e r)
  running-visits (ran o w replies h) s n r =
      let q = phase_of (reconcile show hex w replies o).1.stored in
      or_left (visits is_deploying h) (is_deploying q)
        (elim (Bool-cases (is_phase_running (phase_of o))) [
          | inl e ↦ running-visits h s n e
          | inr e ↦ visits_now is_deploying h (
              deploying_of (phase_of o) e (
                active_next (phase_of o) q
                  (reconcile-may_follow show hex w replies o (History-IsSound s h)) r))
        ])
