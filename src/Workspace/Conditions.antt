-- ===== src/Workspace/Conditions.antt =====
-- What setCondition and markFailed keep.
use exalsius_operator.Prelude.{
  ℕ, ◌≡◌, ◌⊎◌, Option, none, some, List, [], ◌∷◌, map, Memᴰ, Text, text_eq, if◌then◌else◌, true,
  text_eq_iff, inl, inr, Bool, false, refl, subst, arith, text_eq_refl, ap,
}
use exalsius_operator.Workspace.{
  Condition, Status, put_condition, set_condition, replaced, mark_failed, same_status,
}
use exalsius_operator.Kube.{ConditionStatus, status_true, status_unknown, status_false}

-- The condition that a reader finds under a type: the first one.
unfoldable pub find_condition : Text → List Condition → Option Condition
find_condition t [] = none
find_condition t (c ∷ cs) =
    let rest = find_condition t cs in if text_eq c.condition_type t then some c else rest

abbrev pub type_of : Condition → Text
type_of c = c.condition_type

-- At most one condition of a type.
abbrev pub IsUnique : List Condition → Type 0
IsUnique [] = Unit
IsUnique (c ∷ cs) = ¬ Memᴰ (type_of c) (map type_of cs) × IsUnique cs

put_type :
    (c d : Condition) → text_eq d.condition_type c.condition_type ≡ true → type_of d ≡ type_of c
put_type c d h = (text_eq_iff (type_of d) (type_of c)).0 h

put_condition_mem :
    (c : Condition) (cs : List Condition) (t : Text)
    → Memᴰ t (map type_of (put_condition c cs))
    → (t ≡ type_of c) ⊎ Memᴰ t (map type_of cs)
unfolding put_condition
put_condition_mem c [] t (Memᴰ.head e) = inl e
put_condition_mem c [] t (Memᴰ.tail m) = elim m [ ]
put_condition_mem c (d ∷ cs) t m =
    go (text_eq d.condition_type c.condition_type) m (put_condition_mem c cs t)
  where
    go :
        (b : Bool)
        → Memᴰ t (map type_of (if b then replaced c d ∷ cs else d ∷ put_condition c cs))
        → (Memᴰ t (map type_of (put_condition c cs)) → (t ≡ type_of c) ⊎ Memᴰ t (map type_of cs))
        → (t ≡ type_of c) ⊎ Memᴰ t (map type_of (d ∷ cs))
    go true (Memᴰ.head e) ih = inl e
    go true (Memᴰ.tail k) ih = inr (Memᴰ.tail k)
    go false (Memᴰ.head e) ih = inr (Memᴰ.head e)
    go false (Memᴰ.tail k) ih = elim (ih k) [ inl e ↦ inl e | inr n ↦ inr (Memᴰ.tail n) ]

put_condition-IsUnique :
    (c : Condition) (cs : List Condition) → IsUnique cs → IsUnique (put_condition c cs)
unfolding put_condition
put_condition-IsUnique c [] u = ((λ m. elim m [ ]), tt)
put_condition-IsUnique c (d ∷ cs) u =
    go (text_eq d.condition_type c.condition_type) refl (put_condition_mem c cs (type_of d))
      (put_condition-IsUnique c cs u.1)
  where
    go :
        (b : Bool)
        → text_eq d.condition_type c.condition_type ≡ b
        → (Memᴰ (type_of d) (map type_of (put_condition c cs))
            → (type_of d ≡ type_of c) ⊎ Memᴰ (type_of d) (map type_of cs))
        → IsUnique (put_condition c cs)
        → IsUnique (if b then replaced c d ∷ cs else d ∷ put_condition c cs)
    go true e hm ih = (subst (λ t. ¬ Memᴰ t (map type_of cs)) (put_type c d e) u.0, u.1)
    go false e hm ih = (
      (λ m. elim (hm m) [
        | inl q ↦ ground (arith, text_eq_iff (type_of d) (type_of c))
        | inr n ↦ u.0 n
      ]),
      ih,
    )

-- Setting a condition keeps the list at one condition of each type.
pub set_condition-IsUnique :
    (now : ℕ) (c : Condition) (st : Status)
    → IsUnique st.conditions
    → IsUnique ((set_condition now c st).conditions)
unfolding set_condition
set_condition-IsUnique now c st u =
    put_condition-IsUnique (record c { last_transition_time = now }) st.conditions u

-- When a condition has changed last, after it went from one status to another at `now`: the time
-- before where the two are the same, and `now` otherwise.
abbrev pub transition_time : ℕ → ConditionStatus → ConditionStatus → ℕ → ℕ
transition_time now status_true status_true before = before
transition_time now status_false status_false before = before
transition_time now status_unknown status_unknown before = before
transition_time now _ _ before = now

time_kept :
    (now : ℕ) (s t : ConditionStatus) (before : ℕ)
    → (if same_status s t then before else now) ≡ transition_time now s t before
time_kept now status_true status_true before = refl
time_kept now status_true _ before = refl
time_kept now status_false status_false before = refl
time_kept now status_false _ before = refl
time_kept now status_unknown status_unknown before = refl
time_kept now status_unknown _ before = refl

-- The condition that a reader finds after setCondition: the new one, with the time of the old one
-- where the status stays.
abbrev pub updated : ℕ → Condition → Option Condition → Condition
updated now c none = record c { last_transition_time = now }
updated now c (some old) = record c {
  last_transition_time = transition_time now old.status c.status old.last_transition_time;
}

replaced-updated :
    (now : ℕ) (c old : Condition)
    → replaced (record c { last_transition_time = now }) old ≡ updated now c (some old)
replaced-updated now c old =
    ap (λ t. record c { last_transition_time = t })
      (time_kept now old.status c.status old.last_transition_time)

find_condition_put :
    (now : ℕ) (c : Condition) (cs : List Condition)
    → find_condition (type_of c) (put_condition (record c { last_transition_time = now }) cs)
      ≡ some (updated now c (find_condition (type_of c) cs))
unfolding find_condition put_condition
find_condition_put now c [] = ground (arith, text_eq_refl (type_of c))
find_condition_put now c (d ∷ cs) =
    ground (arith, text_eq_refl (type_of c), replaced-updated now c d, find_condition_put now c cs)

find_condition_other :
    (now : ℕ) (c : Condition) (t : Text) (cs : List Condition)
    → ¬ (t ≡ type_of c)
    → find_condition t (put_condition (record c { last_transition_time = now }) cs)
      ≡ find_condition t cs
unfolding find_condition put_condition
find_condition_other now c t [] n = ground (arith, text_eq_iff (type_of c) t)
find_condition_other now c t (d ∷ cs) n = ground (
  arith,
  text_eq_iff (type_of c) t,
  text_eq_iff (type_of d) (type_of c),
  text_eq_iff (type_of d) t,
  find_condition_other now c t cs n,
)

-- After setCondition a reader finds under the condition's type the new condition, its transition
-- time the old one's where the status stays and the present where it changes or the type is new.
pub set_condition-find_condition :
    (now : ℕ) (c : Condition) (st : Status)
    → find_condition (type_of c) ((set_condition now c st).conditions)
      ≡ some (updated now c (find_condition (type_of c) st.conditions))
unfolding set_condition
set_condition-find_condition now c st = find_condition_put now c st.conditions

-- Under every other type the reader finds what was there.
pub set_condition_frame :
    (now : ℕ) (c : Condition) (t : Text) (st : Status)
    → ¬ (t ≡ type_of c)
    → find_condition t ((set_condition now c st).conditions) ≡ find_condition t st.conditions
unfolding set_condition
set_condition_frame now c t st n = find_condition_other now c t st.conditions n

-- A second failure keeps the context of the first: what markFailed captured from a status stays
-- through any later markFailed, under any reason.
pub mark_failed_first_wins :
    (reason later : Text) (st : Status)
    → mark_failed later (mark_failed reason st) ≡ mark_failed reason st
unfolding mark_failed
mark_failed_first_wins reason later st = ground arith
