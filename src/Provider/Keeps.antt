-- ===== src/Provider/Keeps.antt =====
-- Rules for what a call of the route provider keeps true of the clusters, however it ends.
use exalsius_operator.Prelude.{◌≡◌, refl, sym, subst, Bool, true, false, if◌then◌else◌}
use exalsius_operator.Provider.{
  Store, Fault, Trial, P, succeeded, faulted, give, fault, done, change, store_of, state_of, ◌>>=◌,
}

pub record Keeps {A : Type 0} (I : Store → Type 0) (m : P A) : Type 0 where
  pub at : (s : Store) → I s → I (state_of (m s))

module _ {I : Store → Type 0} {A B : Type 0} where
  keeps_rest :
      (o : Trial A) (f : A → P B)
      → I (state_of o)
      → ((a : A) → Keeps I (f a))
      → I (state_of (elim o [ succeeded a s ↦ f a s | faulted e s ↦ faulted e s ]))
  keeps_rest (succeeded a s) f h k = (k a).at s h
  keeps_rest (faulted e s) f h k = h

  pub Keeps-bind :
      {m : P A} {f : A → P B} → Keeps I m → ((a : A) → Keeps I (f a)) → Keeps I (m >>= f)
  Keeps-bind {m} {f} h k = record { at = λ s i. keeps_rest (m s) f (h.at s i) k }

module _ {I : Store → Type 0} {A : Type 0} where
  pub Keeps-give : (a : A) → Keeps I (give a)
  Keeps-give a = record { at = λ s i. i }

  pub Keeps-fault : (e : Fault) → Keeps I (fault {A = A} e)
  Keeps-fault e = record { at = λ s i. i }

  pub Keeps-if : (b : Bool) {m n : P A} → Keeps I m → Keeps I n → Keeps I (if b then m else n)
  Keeps-if true h k = h
  Keeps-if false h k = k

module _ {I : Store → Type 0} where
  pub Keeps-done : Keeps I done
  Keeps-done = record { at = λ s i. i }

  pub Keeps-store_of : Keeps I store_of
  Keeps-store_of = record { at = λ s i. i }

  pub Keeps-change : (f : Store → Store) → ((s : Store) → I s → I (f s)) → Keeps I (change f)
  Keeps-change f h = record { at = h }

pub ruleset keeps_rules =
    (Keeps-bind, Keeps-give, Keeps-fault, Keeps-if, Keeps-done, Keeps-store_of)

-- A step that leaves the state as it is, and that gives only results with `Q`.
abbrev Unchanged : {A : Type 0} → (A → Type 0) → Store → Trial A → Type 0
Unchanged Q s (succeeded a s') = (s' ≡ s) × Q a
Unchanged Q s (faulted e s') = s' ≡ s

pub record Reads {A : Type 0} (m : P A) (Q : A → Type 0) : Type 0 where
  pub at : (s : Store) → Unchanged Q s (m s)

module _ {A B : Type 0} {Q : A → Type 0} {R : B → Type 0} where
  reads_rest :
      (o : Trial A) (f : A → P B) (s : Store)
      → Unchanged Q s o
      → ((a : A) → Q a → Reads (f a) R)
      → Unchanged R s (elim o [ succeeded a s' ↦ f a s' | faulted e s' ↦ faulted e s' ])
  reads_rest (succeeded a s') f s h k =
      subst (λ t. Unchanged R s (f a t)) (sym h.0) ((k a h.1).at s)
  reads_rest (faulted e s') f s h k = h

  pub reads_bind :
      {m : P A} {f : A → P B} → Reads m Q → ((a : A) → Q a → Reads (f a) R) → Reads (m >>= f) R
  reads_bind {m} {f} h k = record { at = λ s. reads_rest (m s) f s (h.at s) k }

module _ {A B : Type 0} {Q : A → Type 0} {I : Store → Type 0} where
  keeps_after :
      (o : Trial A) (f : A → P B) (s : Store)
      → I s
      → Unchanged Q s o
      → ((a : A) → Q a → Keeps I (f a))
      → I (state_of (elim o [ succeeded a s' ↦ f a s' | faulted e s' ↦ faulted e s' ]))
  keeps_after (succeeded a s') f s i h k = (k a h.1).at s' (subst I (sym h.0) i)
  keeps_after (faulted e s') f s i h k = subst I (sym h) i

  -- What follows a reading step may rely on what was read.
  pub Keeps-read :
      {m : P A} {f : A → P B} → Reads m Q → ((a : A) → Q a → Keeps I (f a)) → Keeps I (m >>= f)
  Keeps-read {m} {f} h k = record { at = λ s i. keeps_after (m s) f s i (h.at s) k }

module _ {A : Type 0} {Q : A → Type 0} where
  pub reads_give : (a : A) → Q a → Reads (give a) Q
  reads_give a q = record { at = λ s. (refl, q) }

  pub reads_fault : (e : Fault) → Reads (fault e) Q
  reads_fault e = record { at = λ s. refl }

-- A test that ends the call where it fails.
pub reads_unless : (b : Bool) (e : Fault) → Reads (if b then fault e else done) (λ u. b ≡ false)
reads_unless true e = reads_fault e
reads_unless false e = reads_give tt refl

pub reads_when : (b : Bool) (e : Fault) → Reads (if b then done else fault e) (λ u. b ≡ true)
reads_when true e = reads_give tt refl
reads_when false e = reads_fault e

-- What is true of the result of a step that succeeds.
abbrev Holds : {A : Type 0} → (A → Type 0) → Trial A → Type 0
Holds Q (succeeded a s) = Q a
Holds Q (faulted e s) = Unit

pub record Gives {A : Type 0} (m : P A) (Q : A → Type 0) : Type 0 where
  pub at : (s : Store) → Holds Q (m s)

module _ {A B : Type 0} {R : B → Type 0} where
  gives_rest :
      (o : Trial A) (f : A → P B)
      → ((a : A) → Gives (f a) R)
      → Holds R (elim o [ succeeded a s ↦ f a s | faulted e s ↦ faulted e s ])
  gives_rest (succeeded a s) f k = (k a).at s
  gives_rest (faulted e s) f k = tt

  pub gives_last : (m : P A) {f : A → P B} → ((a : A) → Gives (f a) R) → Gives (m >>= f) R
  gives_last m {f} k = record { at = λ s. gives_rest (m s) f k }

module _ {A B : Type 0} {Q : A → Type 0} {R : B → Type 0} where
  gives_next :
      (o : Trial A) (f : A → P B)
      → Holds Q o
      → ((a : A) → Q a → Gives (f a) R)
      → Holds R (elim o [ succeeded a s ↦ f a s | faulted e s ↦ faulted e s ])
  gives_next (succeeded a s) f h k = (k a h).at s
  gives_next (faulted e s) f h k = tt

  pub gives_bind :
      {m : P A} {f : A → P B} → Gives m Q → ((a : A) → Q a → Gives (f a) R) → Gives (m >>= f) R
  gives_bind {m} {f} h k = record { at = λ s. gives_next (m s) f (h.at s) k }

module _ {A : Type 0} (Q : A → Type 0) where
  Holds-Unchanged : (s : Store) (o : Trial A) → Unchanged Q s o → Holds Q o
  Holds-Unchanged s (succeeded a s') h = h.1
  Holds-Unchanged s (faulted e s') h = tt

  pub of_result : (o : Trial A) (a : A) (s : Store) → Holds Q o → o ≡ succeeded a s → Q a
  of_result o a s h e = subst (Holds Q) e h

module _ {A : Type 0} {Q : A → Type 0} where
  pub gives_read : {m : P A} → Reads m Q → Gives m Q
  gives_read {m} h = record { at = λ s. Holds-Unchanged Q s (m s) (h.at s) }

  pub gives_give : (a : A) → Q a → Gives (give a) Q
  gives_give a q = record { at = λ s. q }

  pub gives_fault : (e : Fault) → Gives (fault e) Q
  gives_fault e = record { at = λ s. tt }

  pub gives_if : (b : Bool) {m n : P A} → Gives m Q → Gives n Q → Gives (if b then m else n) Q
  gives_if true h k = h
  gives_if false h k = k

  pub gives_weaken : {R : A → Type 0} {m : P A} → Gives m Q → ((a : A) → Q a → R a) → Gives m R
  gives_weaken {R} {m} h k = record { at = λ s. holds_weaken R (m s) (h.at s) k }
    where
      holds_weaken : (R : A → Type 0) (o : Trial A) → Holds Q o → ((a : A) → Q a → R a) → Holds R o
      holds_weaken R (succeeded a s) q f = f a q
      holds_weaken R (faulted e s) q f = tt
