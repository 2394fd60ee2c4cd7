-- ===== src/Run/Ensures.antt =====
-- Statements about a run, with one rule for each way to build a step. `Ensures Q E r` says that `Q`
-- holds where the run goes on and `E` where it ends.
use exalsius_operator.Run.{Run, Ran, M, continue, exit, Exit, Object, ◌>>=◌, pure, stop, object_of}
use exalsius_operator.Prelude.{◌≡◌, refl, Bool, true, false, if◌then◌else◌}

module _ {A : Type 0} where
  abbrev pub Ensures : (A → Run → Type 0) → (Run → Type 0) → Ran A → Type 0
  Ensures Q E (continue a r) = Q a r
  Ensures Q E (exit e r) = E r

-- A step started in a run with `P` goes on in one with `Q`, or ends in one with `E`.
pub record Triple {A : Type 0} (P : Run → Type 0) (m : M A) (Q : A → Run → Type 0)
    (E : Run → Type 0) : Type 0 where
  pub at : (r : Run) → P r → Ensures Q E (m r)

module _ {A B : Type 0} where
  Ensures-bind :
      (o : Ran A) (f : A → M B) (Q : A → Run → Type 0) (R : B → Run → Type 0) (E : Run → Type 0)
      → Ensures Q E o
      → ((a : A) (r : Run) → Q a r → Ensures R E (f a r))
      → Ensures R E (elim o [ continue a r' ↦ f a r' | exit e r' ↦ exit e r' ])
  Ensures-bind (continue a r) f Q R E h k = k a r h
  Ensures-bind (exit e r) f Q R E h k = h

  pub Triple-bind :
      {P : Run → Type 0} {Q : A → Run → Type 0} {R : B → Run → Type 0} {E : Run → Type 0} {m : M A}
      {f : A → M B}
      → Triple P m Q E
      → ((a : A) → Triple (Q a) (f a) R E)
      → Triple P (m >>= f) R E
  Triple-bind {Q} {R} {E} {m} {f} hm hf = record {
    at = λ r p. Ensures-bind (m r) f Q R E (hm.at r p) (λ a r' q. (hf a).at r' q);
  }

module _ {A : Type 0} {P : Run → Type 0} {E : Run → Type 0} where
  pub Triple-stop :
      (e : Exit) {Q : A → Run → Type 0} → ((r : Run) → P r → E r) → Triple P (stop e) Q E
  Triple-stop e h = record { at = h }

  pub Triple-pure :
      (a : A) {Q : A → Run → Type 0} → ((r : Run) → P r → Q a r) → Triple P (pure a) Q E
  Triple-pure a h = record { at = h }

  pub Triple-if :
      (b : Bool) {m n : M A} {Q : A → Run → Type 0}
      → (b ≡ true → Triple P m Q E)
      → (b ≡ false → Triple P n Q E)
      → Triple P (if b then m else n) Q E
  Triple-if true hm hn = hm refl
  Triple-if false hm hn = hn refl

  pub Triple-weaken :
      {m : M A} {Q : A → Run → Type 0} (P' : Run → Type 0)
      → ((r : Run) → P r → P' r)
      → Triple P' m Q E
      → Triple P m Q E
  Triple-weaken P' w h = record { at = λ r p. h.at r (w r p) }

  pub Triple-read :
      {k : Object → M A} {Q : A → Run → Type 0}
      → ((o : Object) → Triple (λ r. P r × (r.object ≡ o)) (k o) Q E)
      → Triple P (object_of >>= k) Q E
  Triple-read h = record { at = λ r p. (h r.object).at r (p, refl) }

  pub Triple-consequence :
      {m : M A} {R : A → Run → Type 0} (Q' : A → Run → Type 0)
      → Triple P m Q' E
      → ((a : A) (r : Run) → Q' a r → R a r)
      → Triple P m R E
  Triple-consequence {m} {R} Q' h k = record { at = λ r p. go (m r) (h.at r p) }
    where
      go : (o : Ran A) → Ensures Q' E o → Ensures R E o
      go (continue a r) q = k a r q
      go (exit e r) q = q

  pub Triple-look :
      {k : Object → M A} {Q : A → Run → Type 0}
      → ((o : Object) → Triple P (k o) Q E)
      → Triple P (object_of >>= k) Q E
  Triple-look h = record { at = λ r p. (h r.object).at r p }

  -- A fact that does not depend on the run.
  pub Triple-fact :
      {m : M A} {Q : A → Run → Type 0} (K : Type 0)
      → ((r : Run) → P r → K)
      → (K → Triple P m Q E)
      → Triple P m Q E
  Triple-fact K f h = record { at = λ r p. (h (f r p)).at r p }
