-- ===== src/Merge/Laws.antt =====
-- The merged values, key by key.
use exalsius_operator.Merge.{
  RawValues, put_all, put_user, merge_user, merge_values_map, object_values, malformed_values,
  null_values, absent, merged,
}
use exalsius_operator.Prelude.{
  ◌≡◌, refl, ◌∙◌, subst, inl, inr, some, arith, Text, text_eq, text_eq_iff, or_else, Bool-cases,
}
use exalsius_operator.Values.{Fields, get, put, field, end}
use exalsius_operator.Values.Laws.{get-put_self, get-put_ne}

get-put_all : (k : Text) (m u : Fields) → get k (put_all m u) ≡ or_else (get k u) (get k m)
unfolding put_all get
get-put_all k m end = refl
get-put_all k m (field j v u) = elim (Bool-cases (text_eq j k)) [
  | inl e ↦
      let j_k = (text_eq_iff j k).0 e in
      rw e
        (subst (λ i. get i (put j v (put_all m u)) ≡ some v) j_k (get-put_self j v (put_all m u)))
  | inr e ↦ rw e (get-put_ne j k v (put_all m u) e ∙ get-put_all k m u)
]

-- The map that a values field stands for.
abbrev pub fields_of : RawValues → Fields
fields_of (object_values m) = m
fields_of _ = end

-- At every key of the merged values the user's value stands where the user gives one, else the
-- default of the class; a field that is absent or null gives none.
pub get-merge_values_map :
    (class_defaults user : RawValues) (m : Fields) (k : Text)
    → merge_values_map class_defaults user ≡ merged (some m)
    → get k m ≡ or_else (get k (fields_of user)) (get k (fields_of class_defaults))
unfolding merge_values_map merge_user put_user get
get-merge_values_map absent absent m k h = ground (arith, get-put_all k end end)
get-merge_values_map absent null_values m k h = ground (arith, get-put_all k end end)
get-merge_values_map absent (object_values u) m k h = ground (arith, get-put_all k end u)
get-merge_values_map absent malformed_values m k h = cc
get-merge_values_map malformed_values user m k h = cc
get-merge_values_map null_values absent m k h = cc
get-merge_values_map null_values null_values m k h = cc
get-merge_values_map null_values malformed_values m k h = cc
get-merge_values_map null_values (object_values end) m k h = cc
get-merge_values_map null_values (object_values (field j v u)) m k h = cc
get-merge_values_map (object_values c) absent m k h = ground (arith, get-put_all k end c)
get-merge_values_map (object_values c) null_values m k h = ground (arith, get-put_all k end c)
get-merge_values_map (object_values c) malformed_values m k h = cc
get-merge_values_map (object_values c) (object_values u) m k h =
    ground (arith, get-put_all k (put_all end c) u, get-put_all k end c)
