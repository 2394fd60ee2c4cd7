-- ===== src/Values/Laws.antt =====
-- Reading what was written, and what a write leaves alone.
use exalsius_operator.Prelude.{
  ◌≡◌, refl, Bool, false, ◌||◌, Option, none, some, List, [], ◌∷◌, arith, Text, text_eq,
  text_eq_iff, text_eq_refl, if◌then◌else◌, ◌∙◌,
}
use exalsius_operator.Values.{
  Value, Fields, get, put, as_map, enter, set_nested, set_nested_value, end, field, object,
}

-- The value at a path, if maps lead there.
unfoldable pub get_path : List Text → Fields → Option Value
get_path [] m = none
get_path (k ∷ []) m = get k m
get_path (k ∷ j ∷ path) m = elim (as_map (get k m)) [ none ↦ none | some n ↦ get_path (j ∷ path) n ]

pub get-put :
    (k j : Text) (v : Value) (m : Fields)
    → get j (put k v m) ≡ (if text_eq k j then some v else get j m)
unfolding get put
get-put k j v end = refl
get-put k j v (field i w m) =
    ground (arith, text_eq_iff k j, text_eq_iff i k, text_eq_iff i j, get-put k j v m)

pub get-put_self : (k : Text) (v : Value) (m : Fields) → get k (put k v m) ≡ some v
get-put_self k v m = rw get-put (rw text_eq_refl)

set_nested_get :
    (m : Fields) (k : Text) (path : List Text) (v : Value) (b : Bool)
    → get_path (k ∷ path) (set_nested m (k ∷ path) v b).fields ≡ some v
unfolding set_nested get_path
set_nested_get m k [] v b = get-put_self k v m
set_nested_get m k (j ∷ path) v b =
    let (next, replaced) = enter (get k m) in
    rw (get-put_self k (object (set_nested next (j ∷ path) v (b || replaced)).fields) m, get_path)
      (set_nested_get next j path v (b || replaced))

-- A written value is read back at its path, whatever stood on the way.
pub get_path-set_nested_value :
    (m : Fields) (k : Text) (path : List Text) (v : Value)
    → get_path (k ∷ path) (set_nested_value m (k ∷ path) v).fields ≡ some v
unfolding set_nested_value
get_path-set_nested_value m k path v = set_nested_get m k path v false

-- Two paths that part: after a common beginning they name different keys.
pub data Parts : List Text → List Text → Type 0 where
  here : {k j : Text} {p q : List Text} → text_eq k j ≡ false → Parts (k ∷ p) (j ∷ q)
  below : {k i j : Text} {p q : List Text} → Parts (i ∷ p) (j ∷ q) → Parts (k ∷ i ∷ p) (k ∷ j ∷ q)

pub get_path-get :
    (j : Text) (q : List Text) (m n : Fields)
    → get j m ≡ get j n
    → get_path (j ∷ q) m ≡ get_path (j ∷ q) n
unfolding get_path
get_path-get j [] m n h = h
get_path-get j (i ∷ q) m n h = rw (h, get_path)

get_path-end : (q : List Text) → get_path q end ≡ none
unfolding get_path get
get_path-end [] = refl
get_path-end (j ∷ []) = refl
get_path-end (j ∷ i ∷ q) = refl

-- The map that a write enters reads like the map that was there.
get_path-enter :
    (k i : Text) (q : List Text) (m : Fields)
    → get_path (i ∷ q) (enter (get k m)).0 ≡ get_path (k ∷ i ∷ q) m
unfolding get_path
get_path-enter k i q m = go (get k m)
  where
    go :
        (o : Option Value)
        → get_path (i ∷ q) (enter o).0
          ≡ (elim (as_map o) [ none ↦ none | some n ↦ get_path (i ∷ q) n ])
    go none = get_path-end (i ∷ q)
    go (some (object n)) = refl
    go (some _) = get_path-end (i ∷ q)

pub get_path-put_object :
    (k i : Text) (q : List Text) (m n : Fields)
    → get_path (k ∷ i ∷ q) (put k (object n) m) ≡ get_path (i ∷ q) n
unfolding get_path
get_path-put_object k i q m n = rw (get-put_self k (object n) m, get_path)

pub get-put_ne :
    (k j : Text) (v : Value) (m : Fields) → text_eq k j ≡ false → get j (put k v m) ≡ get j m
get-put_ne k j v m e = rw get-put (rw e)

set_nested_frame :
    {p q : List Text} (m : Fields) (v : Value) (b : Bool)
    → Parts p q
    → get_path q (set_nested m p v b).fields ≡ get_path q m
unfolding set_nested
set_nested_frame m v b (here {k} {j} {p = []} {q} e) =
    get_path-get j q (put k v m) m (get-put_ne k j v m e)
set_nested_frame m v b (here {k} {j} {p = i ∷ p} {q} e) =
    get_path-get j q _ m (get-put_ne k j _ m e)
set_nested_frame m v b (below {k} {i} {j} {p} {q} d) =
    let (next, replaced) = enter (get k m) in
    get_path-put_object k j q m (set_nested next (i ∷ p) v (b || replaced)).fields
    ∙ set_nested_frame next v (b || replaced) d
    ∙ get_path-enter k j q m

-- A write changes nothing at a path that parts from the written one, also where a value that is no
-- map had to give way on the common beginning.
pub set_nested_value_frame :
    {p q : List Text} (m : Fields) (v : Value)
    → Parts p q
    → get_path q (set_nested_value m p v).fields ≡ get_path q m
unfolding set_nested_value
set_nested_value_frame {p = []} m v d = refl
set_nested_value_frame {p = k ∷ p} m v d = set_nested_frame m v false d
