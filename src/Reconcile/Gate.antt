-- ===== src/Reconcile/Gate.antt =====
-- The GPU gate within a run and the phase.
use exalsius_operator.Run.{
  stop, done, ◌>>◌, WorkspaceClass, modify, try_update, when, status_of, requeue_interval, returned,
  requeue_after, Exit,
}
use exalsius_operator.World.{World}
use exalsius_operator.Run.Keeps.{keep, keep_try, keep_done, leave, Both}
use exalsius_operator.Reconcile.Phases.{
  moved, Passes, Moved, Unmoved, stop-Passes, stop-Leaves, may_follow, mark_failed-Moved,
}
use exalsius_operator.Run.Ensures.{Triple-weaken, Triple-fact, Triple-read, Triple-bind, Triple-if}
use mathlib.Core.Bool.{true≢false}
use exalsius_operator.Gpu.Availability.{SelectorAvailability, availability_for_selector}
use exalsius_operator.Kube.{Node, Pod}
use exalsius_operator.Prelude.{
  ℕ, ◌≡◌, refl, ◌⊎◌, inr, true, false, ◌&&◌, Option, none, some, List, arith, bytes, ltb, sym, ◌∙◌,
  subst, inl, Bool, is_nil, if◌then◌else◌,
}
use exalsius_operator.Queue.{
  Deployment, Gated, passed, retried, kept_pending, unavailable, enter_waiting, gate_on,
  has_older_waiting_sibling, gate_gpu_offering,
}
use exalsius_operator.Reconcile.{skips_gate}
use exalsius_operator.Reconcile.Sound.{at_phase-IsSound}
use exalsius_operator.Resources.{
  WorkspaceResourceSpec, gpu_demand, merge_resources, gpu_selector_of,
}
use exalsius_operator.Workspace.{Phase, waiting, phase_pending}
use exalsius_operator.Setup.{set_gated, gate}

-- What holds of both branches holds of the conditional.
either : {A : Type 0} (P : A → Type 0) (b : Bool) {x y : A} → P x → P y → P (if b then x else y)
either P true h k = h
either P false h k = k

-- The gate lets the workspace pass as it is, or changes the phase to one that may follow.
Outcome : Phase → Deployment ℕ → Gated ℕ → Type 0
Outcome p d g = (g ≡ passed d) ⊎ ((g.ok ≡ false) × Moved p g.status)

module _ (p : Phase) (d : Deployment ℕ) (n : skips_gate p ≡ false) (h : Unmoved p d.status) where
  may_pend : may_follow p phase_pending ≡ true
  unfolding may_follow
  may_pend = ground arith

  may_queue : may_follow p waiting ≡ true
  unfolding may_follow
  may_queue = ground arith

  retried-Outcome : Outcome p d (retried d)
  unfolding Outcome
  retried-Outcome = inr (refl, moved p d.status h)

  kept_pending-Outcome : Outcome p d (kept_pending d)
  unfolding Outcome
  kept_pending-Outcome =
      inr (refl, (may_pend, at_phase-IsSound d.status phase_pending refl refl h.1))

  enter_waiting-Outcome : (r : WorkspaceResourceSpec ℕ) → Outcome p d (enter_waiting d r)
  unfolding Outcome enter_waiting
  enter_waiting-Outcome r = inr (refl, (may_queue, at_phase-IsSound d.status waiting refl refl h.1))

  unavailable-Outcome : Outcome p d (unavailable d)
  unfolding Outcome
  unavailable-Outcome =
      inr (refl, mark_failed-Moved p d.status (bytes "GpuOfferingUnavailable") h.1)

  passed-Outcome : Outcome p d (passed d)
  unfolding Outcome
  passed-Outcome = inl refl

  gate_on-Outcome :
      (r : WorkspaceResourceSpec ℕ) (a : SelectorAvailability) (s : Option (List (Deployment ℕ)))
      → Outcome p d (gate_on d r a s)
  unfolding gate_on
  gate_on-Outcome r a none =
      either (Outcome p d) a.found
        (either (Outcome p d) (ltb 0 (gpu_demand r) && ltb a.free (gpu_demand r))
          (enter_waiting-Outcome r) retried-Outcome)
        unavailable-Outcome
  gate_on-Outcome r a (some items) =
      either (Outcome p d) a.found
        (either (Outcome p d) (ltb 0 (gpu_demand r) && ltb a.free (gpu_demand r))
          (enter_waiting-Outcome r)
          (either (Outcome p d) (has_older_waiting_sibling d (gpu_selector_of r) items)
            (enter_waiting-Outcome r) passed-Outcome))
        unavailable-Outcome

  gate-Outcome :
      (defaults : WorkspaceResourceSpec ℕ) (client : Bool) (ns : Option (List Node))
      (ps : Option (List Pod)) (s : Option (List (Deployment ℕ)))
      → Outcome p d (gate_gpu_offering defaults d client ns ps s)
  unfolding gate_gpu_offering
  gate-Outcome defaults client none ps s =
      either (Outcome p d) (is_nil (gpu_selector_of (merge_resources defaults d.resources)))
        passed-Outcome (either (Outcome p d) client kept_pending-Outcome kept_pending-Outcome)
  gate-Outcome defaults client (some ns) none s =
      either (Outcome p d) (is_nil (gpu_selector_of (merge_resources defaults d.resources)))
        passed-Outcome (either (Outcome p d) client kept_pending-Outcome kept_pending-Outcome)
  gate-Outcome defaults client (some ns) (some ps) s =
      let r = merge_resources defaults d.resources in
      either (Outcome p d) (is_nil (gpu_selector_of r)) passed-Outcome (
        either (Outcome p d) client
          (gate_on-Outcome r (availability_for_selector ns ps (gpu_selector_of r)) s)
          kept_pending-Outcome)

abbrev exit_from : Gated ℕ → Exit
exit_from g = if g.requeues then requeue_after requeue_interval else returned

module _ (p : Phase) where
  settle-Passes :
      (d : Deployment ℕ) (g : Gated ℕ)
      → Unmoved p d.status
      → Outcome p d g
      → Passes p (
          modify (set_gated g)
          >> (when g.writes try_update >> (if g.ok then done else stop (exit_from g))))
  unfolding Outcome
  settle-Passes d g h (inl e) =
      Triple-bind
        (keep (Unmoved p) (set_gated g) (λ o k. subst (λ x. Unmoved p x.status) (sym e) h))
        (λ u.
          Triple-bind (Triple-if g.writes (λ x. keep_try (Unmoved p)) (λ x. keep_done (Unmoved p)))
            (λ v.
              Triple-if g.ok {m = done} {n = stop (exit_from g)} (λ x. keep_done (Unmoved p))
                (λ x. stop-Passes p (exit_from g))))
  settle-Passes d g h (inr (n, m)) =
      Triple-bind (leave (Unmoved p) (Moved p) (moved p) (set_gated g) (λ o k. m)) (λ u.
        Triple-bind (Triple-if g.writes (λ x. keep_try (Moved p)) (λ x. keep_done (Moved p))) (λ v.
          Triple-if g.ok {m = done} {n = stop (exit_from g)} (λ x. absurd (true≢false (sym x ∙ n)))
            (λ x. stop-Leaves p (exit_from g))))

  -- A workspace that the gate holds back has a phase that may follow; one that passes has its own.
  pub gate-Passes : (w : World) → skips_gate p ≡ false → (c : WorkspaceClass) → Passes p (gate w c)
  unfolding gate
  gate-Passes w n c = Triple-read (λ o.
      Triple-fact (Unmoved p (status_of o)) (λ r h. subst (λ x. Unmoved p (status_of x)) h.1 h.0.0)
        (λ h.
          Triple-weaken (Both (Unmoved p)) (λ r k. k.0)
            (settle-Passes o.deployment
              (gate_gpu_offering c.default_resources o.deployment w.child_client w.nodes w.pods
                w.siblings)
              h
              (gate-Outcome p o.deployment n h c.default_resources w.child_client w.nodes w.pods
                w.siblings))))
