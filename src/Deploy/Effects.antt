-- ===== src/Deploy/Effects.antt =====
-- Steps that apply no ServiceSet, and what a run has applied so far.
use exalsius_operator.Run.{
  stop, done, pure, Run, M, ServiceEntry, Effect, apply_service_set, write_status, try_update,
  update_or_fail, update_status, Exit, modify, perform, with_status, requeue_interval,
  requeue_after, returned_error,
}
use exalsius_operator.Run.Ensures.{Triple, Triple-bind, Triple-if, Triple-pure, Triple-stop}
use exalsius_operator.Prelude.{
  ◌≡◌, refl, ◌∙◌, Option, none, some, List, [], ◌∷◌, ◌++◌, arith, Text, sym, bytes,
}
use exalsius_operator.Deploy.{fail_run, keep_pending}
use exalsius_operator.Workspace.{Status, mark_failed, phase_pending}

-- The first ServiceSet among the writes.
abbrev pub entry_of : Effect → Option ServiceEntry
entry_of (apply_service_set svc) = some svc
entry_of _ = none

unfoldable pub applied : List Effect → Option ServiceEntry
applied [] = none
applied (e ∷ es) = elim (entry_of e) [ none ↦ applied es | some svc ↦ some svc ]

applied_snoc :
    (es : List Effect) (e : Effect) → entry_of e ≡ none → applied (es ++ e ∷ []) ≡ applied es
unfolding applied
applied_snoc [] e h = ground arith
applied_snoc (x ∷ es) e h = ground (arith, applied_snoc es e h)

pub applied_first :
    (es : List Effect) (svc : ServiceEntry)
    → applied es ≡ none
    → applied (es ++ apply_service_set svc ∷ []) ≡ some svc
unfolding applied
applied_first [] svc h = refl
applied_first (x ∷ es) svc h = ground (arith, applied_first es svc)

-- What a run has applied so far, and the names of its workspace.
abbrev pub SoFar : Option ServiceEntry → Text → Text → Run → Type 0
SoFar a cluster name r =
    (applied r.effects ≡ a) × (r.object.deployment.cluster_name ≡ cluster) × (r.object.name ≡ name)

module _ (G : ServiceEntry → Type 0) (cluster name : Text) where
  -- A run that ends has applied nothing but what `G` allows.
  abbrev pub Allowed : Run → Type 0
  Allowed r = (svc : ServiceEntry) → applied r.effects ≡ some svc → G svc

  -- Steps that apply nothing, where what was applied is allowed.
  module _ (a : Option ServiceEntry) (fine : (svc : ServiceEntry) → a ≡ some svc → G svc) where
    abbrev pub Keeps : {A : Type 0} → M A → Type 0
    Keeps {A} m = Triple (SoFar a cluster name) m (λ x. SoFar a cluster name) Allowed

    pure-Keeps : {A : Type 0} (x : A) → Keeps (pure x)
    pure-Keeps x = Triple-pure x (λ r h. h)

    done-Keeps : Keeps done
    done-Keeps = Triple-pure tt (λ r h. h)

    pub stop-Ends :
        {A : Type 0} {Q : A → Run → Type 0} (e : Exit)
        → Triple (SoFar a cluster name) (stop {A = A} e) Q Allowed
    stop-Ends e = Triple-stop e (λ r h svc k. fine svc (sym h.0 ∙ k))

    pub status-Keeps : (f : Status → Status) → Keeps (modify (with_status f))
    status-Keeps f = record { at = λ r h. h }

    pub perform-Keeps : (e : Effect) → entry_of e ≡ none → Keeps (perform e)
    perform-Keeps e n = record { at = λ r h. (applied_snoc r.effects e n ∙ h.0, h.1, h.2) }

    try-Keeps : Keeps try_update
    unfolding try_update write_status
    try-Keeps = record { at = λ r h. (applied_snoc r.effects update_status refl ∙ h.0, h.1, h.2) }

    write-Keeps : Keeps write_status
    unfolding write_status
    write-Keeps = record { at = λ r h. (applied_snoc r.effects update_status refl ∙ h.0, h.1, h.2) }

    pub update-Keeps : Keeps update_or_fail
    unfolding update_or_fail
    update-Keeps = Triple-bind write-Keeps (λ ok.
        Triple-if ok {m = done} {n = stop returned_error} (λ k. done-Keeps)
          (λ k. stop-Ends returned_error))

    pub fail_run-Ends :
        {A : Type 0} {Q : A → Run → Type 0}
        → Triple (SoFar a cluster name) (fail_run {A = A}) Q Allowed
    unfolding fail_run
    fail_run-Ends =
        Triple-bind (status-Keeps (mark_failed (bytes "InternalError")))
          (λ u. Triple-bind try-Keeps (λ v. stop-Ends returned_error))

    pub keep_pending-Ends :
        {A : Type 0} {Q : A → Run → Type 0}
        → Triple (SoFar a cluster name) (keep_pending {A = A}) Q Allowed
    unfolding keep_pending
    keep_pending-Ends =
        Triple-bind (status-Keeps (λ st. record st { phase = phase_pending }))
          (λ u. Triple-bind try-Keeps (λ v. stop-Ends (requeue_after requeue_interval)))
