-- ===== src/Run/Keeps.antt =====
-- Rules for properties of the status that a step keeps, in memory and on the server.
use exalsius_operator.Run.{
  stop, done, Object, Effect, Exit, Run, modify, perform, status_of, write_status, next_reply,
  update_or_fail, try_update,
}
use exalsius_operator.Prelude.{Bool, true, false, if◌then◌else◌}
use exalsius_operator.Run.Ensures.{Triple, Triple-stop, Triple-pure, Triple-bind, Triple-if}
use exalsius_operator.Workspace.{Status}

-- Of the object in memory and the stored one, and of the stored one alone.
abbrev pub Both : (Status → Type 0) → Run → Type 0
Both F r = F (status_of r.object) × F (status_of r.stored)

abbrev pub Stored : (Status → Type 0) → Run → Type 0
Stored F r = F (status_of r.stored)

module _ (F : Status → Type 0) where
  stored_if :
      (b : Bool) (x y : Object)
      → F (status_of x)
      → F (status_of y)
      → F (status_of (if b then x else y))
  stored_if true x y h k = h
  stored_if false x y h k = k

module _ (F : Status → Type 0) {E : Run → Type 0} where
  pub keep :
      (f : Object → Object)
      → ((o : Object) → F (status_of o) → F (status_of (f o)))
      → Triple (Both F) (modify f) (λ u. Both F) E
  keep f h = record { at = λ r p. (h r.object p.0, p.1) }

  pub keep_perform : {e : Effect} → Triple (Both F) (perform e) (λ u. Both F) E
  keep_perform = record { at = λ r p. p }

  pub keep_done : Triple (Both F) done (λ u. Both F) E
  keep_done = Triple-pure tt (λ r h. h)

  keep_write : Triple (Both F) write_status (λ b. Both F) E
  unfolding write_status
  keep_write = record {
    at = λ r p. (p.0, stored_if F (next_reply r.replies) r.object r.stored p.0 p.1);
  }

  pub keep_try : Triple (Both F) try_update (λ u. Both F) E
  unfolding try_update
  keep_try = Triple-bind keep_write (λ ok. keep_done)

-- A run ends with `G` of what is stored.
module _ (I G : Status → Type 0) (weaken : (st : Status) → I st → G st) where
  pub keep_stop :
      {A : Type 0} {Q : A → Run → Type 0} {e : Exit} → Triple (Both I) (stop {A = A} e) Q (Stored G)
  keep_stop {e} = Triple-stop e (λ r h. weaken (status_of r.stored) h.1)

  pub keep_update : Triple (Both I) update_or_fail (λ u. Both I) (Stored G)
  unfolding update_or_fail
  keep_update = Triple-bind (keep_write I) (λ ok. Triple-if ok (λ h. keep_done I) (λ h. keep_stop))

  -- The step after which the run only ends.
  pub leave :
      (f : Object → Object)
      → ((o : Object) → I (status_of o) → G (status_of (f o)))
      → Triple (Both I) (modify f) (λ u. Both G) (Stored G)
  leave f h = record { at = λ r p. (h r.object p.0, weaken (status_of r.stored) p.1) }
