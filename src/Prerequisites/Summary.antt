-- ===== src/Prerequisites/Summary.antt =====
-- The verdict on the prerequisites is a summary of their statuses.
use exalsius_operator.Prelude.{
  List, [], ◌∷◌, ◌++◌, ◌≡◌, map, Text, All, arith, refl, ap, ◌∙◌, append-nil, sym, subst,
  append_assoc,
}
use exalsius_operator.Prerequisites.{
  ServiceSet, Prerequisite, PrerequisiteStatus, Verdict, Colony, evaluate_one, evaluate_loop,
  continue, all_satisfied, prerequisite_satisfied, evaluated, Round, return, ClusterDeployment,
  colony_of, evaluate_prerequisites,
}
use exalsius_operator.Kube.{Fetched, found, not_found, get_failed}

abbrev pub IsSatisfied : PrerequisiteStatus → Type 0
IsSatisfied st = st.phase ≡ prerequisite_satisfied

evaluate_one_name :
    (c : Colony) (f : Fetched ServiceSet) (p : Prerequisite) (v w : Verdict)
    (st : PrerequisiteStatus)
    → evaluate_one c f p v ≡ continue w st
    → st.name ≡ p.template
unfolding evaluate_one
evaluate_one_name c f p v w st h = ground arith

evaluate_one-IsSatisfied :
    (c : Colony) (f : Fetched ServiceSet) (p : Prerequisite) (v : Verdict) (st : PrerequisiteStatus)
    → evaluate_one c f p v ≡ continue all_satisfied st
    → (v ≡ all_satisfied) × IsSatisfied st
unfolding evaluate_one
evaluate_one-IsSatisfied c f p v st h = ground arith

-- An early return has no good verdict.
evaluate_one_return :
    (c : Colony) (f : Fetched ServiceSet) (p : Prerequisite) (v : Verdict)
    (sts : List PrerequisiteStatus)
    → ¬ (evaluate_one c f p v ≡ return (evaluated all_satisfied sts))
unfolding evaluate_one
evaluate_one_return c f p v sts h = ground arith

-- What a good verdict says of the loop: it started from one, and went on to add a satisfied
-- status for each prerequisite.
record IsGood (v : Verdict) (acc sts : List PrerequisiteStatus) (ps : List Prerequisite)
    : Type 0 where
  before : v ≡ all_satisfied
  added : List PrerequisiteStatus
  split : sts ≡ acc ++ added
  names : map (λ s. s.name) added ≡ map (λ p. p.template) ps
  good : All IsSatisfied added

evaluate_loop_satisfied :
    (c : Colony) (sets : Text → Fetched ServiceSet) (ps : List Prerequisite) (v : Verdict)
    (acc sts : List PrerequisiteStatus)
    → evaluate_loop c sets ps v acc ≡ evaluated all_satisfied sts
    → IsGood v acc sts ps
unfolding evaluate_loop
evaluate_loop_satisfied c sets [] v acc sts h = record {
  before = ground arith;
  added = [];
  split = ground (arith, append-nil acc);
  names = refl;
  good = tt;
}
evaluate_loop_satisfied c sets (p ∷ ps) v acc sts h =
    go (evaluate_one c (sets p.template) p v) refl h
      (λ w st. evaluate_loop_satisfied c sets ps w (acc ++ st ∷ []) sts)
  where
    go :
        (r : Round)
        → evaluate_one c (sets p.template) p v ≡ r
        → (elim r [ return e ↦ e | continue w st ↦ evaluate_loop c sets ps w (acc ++ st ∷ []) ])
          ≡ evaluated all_satisfied sts
        → ((w : Verdict) (st : PrerequisiteStatus)
            → evaluate_loop c sets ps w (acc ++ st ∷ []) ≡ evaluated all_satisfied sts
            → IsGood w (acc ++ st ∷ []) sts ps)
        → IsGood v acc sts (p ∷ ps)
    go (return e) q k ih =
        absurd (evaluate_one_return c (sets p.template) p v sts (q ∙ ap return k))
    go (continue w st) q k ih =
        let rest = ih w st k in
        let e = evaluate_one_name c (sets p.template) p v w st q in
        let es = rest.names in
        let here =
          evaluate_one-IsSatisfied c (sets p.template) p v st
            (q ∙ ap (λ u. continue u st) rest.before) in
        record {
          before = here.0;
          added = st ∷ rest.added;
          split = rest.split ∙ append_assoc acc (st ∷ []) rest.added;
          names = cc;
          good = (here.1, rest.good);
        }

-- Where the verdict is that all prerequisites are satisfied, there is one status for each of them,
-- in order and under its name, and each of these statuses is satisfied.
pub evaluate_prerequisites-All :
    (cd : Fetched ClusterDeployment) (sets : Text → Fetched ServiceSet) (ps : List Prerequisite)
    (sts : List PrerequisiteStatus)
    → evaluate_prerequisites cd sets ps ≡ evaluated all_satisfied sts
    → (map (λ s. s.name) sts ≡ map (λ p. p.template) ps) × All IsSatisfied sts
unfolding evaluate_prerequisites
evaluate_prerequisites-All (found cd) sets ps sts h =
    let g = evaluate_loop_satisfied (colony_of cd) sets ps all_satisfied [] sts h in
    (ap (map (λ s. s.name)) g.split ∙ g.names, subst (All IsSatisfied) (sym g.split) g.good)
evaluate_prerequisites-All not_found sets ps sts h = ground arith
evaluate_prerequisites-All get_failed sets ps sts h = ground arith
