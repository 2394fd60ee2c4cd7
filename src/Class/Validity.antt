-- ===== src/Class/Validity.antt =====
-- The verdict on a class, and a run of its controller after another.
use exalsius_operator.Class.{
  Class, Template, ClassStatus, Problem, validate_paths, evaluate, reconcile_class, namespace_of,
  problem_of, validate_fields, validate_injection_paths, verdict_of, wanted_status, same_flag,
}
use exalsius_operator.Inject.{ResourceField, ResourceInjectionMap}
use exalsius_operator.InjectPath.{Parsed, parse_path, malformed, segments}
use exalsius_operator.Kube.{Fetched, found, get_failed, not_found}
use exalsius_operator.Prelude.{
  ◌≡◌, refl, ◌↔◌, Bool, true, false, Option, none, some, List, [], ◌∷◌, Memᴰ, Text, all, sym, subst,
  ◌&&◌, arith, text_eq, text_eq_refl, ◌==◌, if◌then◌else◌, ◌∙◌,
}

-- Every path of the map parses.
abbrev pub parses : Parsed → Bool
parses (segments segs) = true
parses (malformed e) = false

abbrev pub AllParse : Option ResourceInjectionMap → Type 0
AllParse none = Unit
AllParse (some m) = (f : ResourceField) → all (λ p. parses (parse_path p)) (m f) ≡ true

-- What a class needs: a template that is there and valid, and paths that parse.
abbrev pub IsUsable : Fetched Template → Class → Type 0
IsUsable (found t) c = (t.valid ≡ true) × AllParse c.resource_injection
IsUsable _ c = ⊥

validate_paths_iff :
    (f : ResourceField) (ps : List Text)
    → (validate_paths f ps ≡ none) ↔ (all (λ p. parses (parse_path p)) ps ≡ true)
unfolding validate_paths
validate_paths_iff f [] = (λ h. refl, λ h. refl)
validate_paths_iff f (p ∷ ps) = go (parse_path p) (validate_paths_iff f ps)
  where
    go :
        (x : Parsed)
        → (validate_paths f ps ≡ none) ↔ (all (λ q. parses (parse_path q)) ps ≡ true)
        → (elim (problem_of f p x) [ none ↦ validate_paths f ps | some e ↦ some e ] ≡ none)
          ↔ ((parses x && all (λ q. parses (parse_path q)) ps) ≡ true)
    go (segments segs) ih = ih
    go (malformed e) ih = (λ h. cc, λ h. cc)

validate_fields_sound :
    (m : ResourceInjectionMap) (fs : List ResourceField)
    → validate_fields m fs ≡ none
    → (f : ResourceField) → Memᴰ f fs
    → all (λ p. parses (parse_path p)) (m f) ≡ true
unfolding validate_fields
validate_fields_sound m [] h f i = elim i [ ]
validate_fields_sound m (g ∷ gs) h f i =
    go (validate_paths g (m g)) refl h i (λ k. validate_fields_sound m gs k f)
  where
    go :
        (x : Option Problem)
        → validate_paths g (m g) ≡ x
        → elim x [ none ↦ validate_fields m gs | some e ↦ some e ] ≡ none
        → Memᴰ f (g ∷ gs)
        → (validate_fields m gs ≡ none → Memᴰ f gs → all (λ p. parses (parse_path p)) (m f) ≡ true)
        → all (λ p. parses (parse_path p)) (m f) ≡ true
    go none e k (Memᴰ.head q) ih =
        (validate_paths_iff f (m f)).0 (subst (λ x. validate_paths x (m x) ≡ none) (sym q) e)
    go none e k (Memᴰ.tail j) ih = ih k j
    go (some y) e k j ih = cc

validate_fields_complete :
    (m : ResourceInjectionMap) (fs : List ResourceField)
    → ((f : ResourceField) → all (λ p. parses (parse_path p)) (m f) ≡ true)
    → validate_fields m fs ≡ none
unfolding validate_fields
validate_fields_complete m [] h = refl
validate_fields_complete m (f ∷ fs) h =
    ground (arith, (validate_paths_iff f (m f)).1 (h f), validate_fields_complete m fs h)

same_flag_refl : (b : Bool) → same_flag b b ≡ true
same_flag_refl true = refl
same_flag_refl false = refl

-- A status that is the wanted one is not written.
fresh :
    (s w : ClassStatus)
    → w ≡ s
    → (if same_flag s.valid w.valid
          && (text_eq s.validation_error w.validation_error
              && s.observed_generation == w.observed_generation)
        then none
        else some w)
      ≡ none
fresh s w e = rw e (ground (arith, same_flag_refl s.valid, text_eq_refl s.validation_error))

-- The status that is written is the wanted one.
chosen : (b : Bool) (w s : ClassStatus) → (if b then none else some w) ≡ some s → w ≡ s
chosen true w s h = cc
chosen false w s h = cc

-- The paths of a class that all parse are found valid, in any order.
valid_paths :
    (order : List ResourceField) (m : Option ResourceInjectionMap)
    → AllParse m
    → validate_injection_paths order m ≡ none
unfolding validate_injection_paths
valid_paths order none h = refl
valid_paths order (some m) h = validate_fields_complete m order h

-- The status that is wanted of a class whose paths all parse.
abbrev wanted_parsed : (Problem → Text) → Fetched Template → Class → ClassStatus
wanted_parsed say t c = wanted_status say [] t (record c { resource_injection = none })

module _ (say : Problem → Text) (order : List ResourceField) where
  validated_iff :
      (m : Option ResourceInjectionMap)
      → ((f : ResourceField) → Memᴰ f order)
      → (validate_injection_paths order m ≡ none) ↔ AllParse m
  unfolding validate_injection_paths
  validated_iff none h = (λ e. tt, λ u. refl)
  validated_iff (some m) h =
      ((λ e f. validate_fields_sound m order e f (h f)), (λ u. validate_fields_complete m order u))

  accepted_iff : (v : Option Problem) → ((verdict_of say v).0 ≡ true) ↔ (v ≡ none)
  accepted_iff none = (λ h. refl, λ h. refl)
  accepted_iff (some e) = (λ h. cc, λ h. cc)

  split :
      (b : Bool) (v : Bool × Text) (m : Text)
      → ((if b then v else (false, m)).0 ≡ true) ↔ ((b ≡ true) × (v.0 ≡ true))
  split true v m = (λ h. (refl, h), λ u. u.1)
  split false v m = (λ h. cc, λ u. cc)

  -- The status of a class has no part in what is wanted.
  wanted_status_again :
      (t : Fetched Template) (c : Class) (s : ClassStatus)
      → wanted_status say order t (record c { status = s }) ≡ wanted_status say order t c
  unfolding wanted_status evaluate namespace_of
  wanted_status_again (found t) c s = refl
  wanted_status_again not_found c s = refl
  wanted_status_again get_failed c s = refl

  -- Where the range over the fields meets every field, in whatever order, a class is found valid
  -- exactly if its template is there and valid and every injection path of every field parses.
  pub evaluate-IsUsable :
      (t : Fetched Template) (c : Class)
      → ((f : ResourceField) → Memᴰ f order)
      → ((evaluate say order t c).0 ≡ true) ↔ IsUsable t c
  unfolding evaluate
  evaluate-IsUsable (found t) c h =
      let v = validate_injection_paths order c.resource_injection in
      let i = validated_iff c.resource_injection h in
      (
        (λ e.
            let (a, k) = (split t.valid (verdict_of say v) _).0 e in
            (a, i.0 ((accepted_iff v).0 k))),
        (λ u. (split t.valid (verdict_of say v) _).1 (u.0, (accepted_iff v).1 (i.1 u.1))),
      )
  evaluate-IsUsable not_found c h = (λ e. cc, λ u. elim u [ ])
  evaluate-IsUsable get_failed c h = (λ e. cc, λ u. elim u [ ])

  -- Where every path parses, the order of the range has no part in what is wanted.
  wanted_in_any_order :
      (t : Fetched Template) (c : Class)
      → AllParse c.resource_injection
      → wanted_status say order t c ≡ wanted_parsed say t c
  unfolding wanted_status evaluate namespace_of validate_injection_paths
  wanted_in_any_order (found t) c h = rw (valid_paths order c.resource_injection h) refl
  wanted_in_any_order not_found c h = refl
  wanted_in_any_order get_failed c h = refl

module _ (say : Problem → Text) where
  -- The controller comes to rest where every injection path parses: after a run has written the
  -- status, a run on the class with that status writes nothing as long as the template and the class
  -- stay, in whichever orders the two runs range over the fields.
  pub reconcile_class_settles :
      (order later : List ResourceField) (t : Fetched Template) (c : Class) (s : ClassStatus)
      → AllParse c.resource_injection
      → reconcile_class say order t c ≡ some s
      → reconcile_class say later t (record c { status = s }) ≡ none
  unfolding reconcile_class
  reconcile_class_settles order later t c s p h =
      let w = wanted_status say order t c in
      let same =
        wanted_status_again say later t c s
        ∙ wanted_in_any_order say later t c p
        ∙ sym (wanted_in_any_order say order t c p) in
      rw same (fresh s w (chosen _ w s h))
