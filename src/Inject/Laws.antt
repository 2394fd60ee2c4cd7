-- ===== src/Inject/Laws.antt =====
-- Where the injected values are read, and what the injection leaves alone.
use exalsius_operator.Inject.{
  ResourceField, field_name, exalsius_values_key, key_resources, key_per_replica, put_entries,
  replicas, field_value, entries_of, resource_fields, Warning, inject_standard, inject_paths,
  inject_resources, ResourceInjectionMap, inject_path, inject_additional,
}
use exalsius_operator.Prelude.{
  ◌≡◌, refl, Bool, Option, none, some, List, [], ◌∷◌, Text, text_eq, or_else, if◌then◌else◌, ap,
  ◌∙◌, true, false, All,
}
use exalsius_operator.Values.{Value, Fields, get, put}
use exalsius_operator.Values.Laws.{
  get-put_self, get-put, get_path, Parts, get_path-put_object, get-put_ne, get_path-get,
  set_nested_value_frame,
}
use exalsius_operator.Resources.{WorkspaceResourceSpec}
use exalsius_operator.InjectPath.{Parsed, parse_path, segments, malformed}

-- The place under `_exalsius.resources` at which charts read a field.
abbrev pub standard_path : ResourceField → List Text
standard_path replicas = exalsius_values_key ∷ key_resources ∷ field_name replicas ∷ []
standard_path f = exalsius_values_key ∷ key_resources ∷ key_per_replica ∷ field_name f ∷ []

abbrev same : ResourceField → ResourceField → Bool
same g f = text_eq (field_name g) (field_name f)

-- The value of the field in a list of entries.
abbrev find : ResourceField → List (ResourceField × Value) → Option Value
find f [] = none
find f ((g, v) ∷ es) = or_else (find f es) (if same g f then some v else none)

-- The node that holds the field, of the two that the loop fills.
abbrev node_of : ResourceField → Fields × Fields → Fields
node_of replicas n = n.0
node_of _ n = n.1

put_one :
    (f g : ResourceField) (v : Value) (es : List (ResourceField × Value)) (a b : Fields)
    → (n : Fields × Fields) × (put_entries ((g, v) ∷ es) a b ≡ put_entries es n.0 n.1)
      × (get (field_name f) (node_of f n)
          ≡ (if same g f then some v else get (field_name f) (node_of f (a, b))))
unfolding put_entries text_eq
put_one replicas replicas v es a b =
    ((put (field_name replicas) v a, b), refl, get-put_self (field_name replicas) v a)
put_one replicas g v es a b = ((a, put (field_name g) v b), refl, refl)
put_one f replicas v es a b = ((put (field_name replicas) v a, b), refl, refl)
put_one f g v es a b =
    ((a, put (field_name g) v b), refl, get-put (field_name g) (field_name f) v b)

or_else-if :
    (o x : Option Value) (v : Value) (t : Bool)
    → or_else o (if t then some v else x) ≡ or_else (or_else o (if t then some v else none)) x
or_else-if none x v true = refl
or_else-if none x v false = refl
or_else-if (some w) x v t = refl

get-put_entries :
    (f : ResourceField) (es : List (ResourceField × Value)) (a b : Fields)
    → get (field_name f) (node_of f (put_entries es a b))
      ≡ or_else (find f es) (get (field_name f) (node_of f (a, b)))
unfolding put_entries
get-put_entries f [] a b = refl
get-put_entries f ((g, v) ∷ es) a b =
    let (n, step, put_here) = put_one f g v es a b in
    ap (λ w. get (field_name f) (node_of f w)) step
    ∙ get-put_entries f es n.0 n.1
    ∙ ap (or_else (find f es)) put_here
    ∙ or_else-if (find f es) (get (field_name f) (node_of f (a, b))) v (same g f)

or_else-none : (o : Option Value) → or_else o none ≡ o
or_else-none none = refl
or_else-none (some v) = refl

if_none : (t : Bool) → if◌then◌else◌ {A = Option Value} t none none ≡ none
if_none true = refl
if_none false = refl

module _ {Q : Type 0} (show : Q → Text) (r : WorkspaceResourceSpec Q) where
  find-entry :
      (f g : ResourceField) (fs : List ResourceField)
      → find f (entries_of show r (g ∷ fs))
        ≡ or_else (find f (entries_of show r fs)) (if same g f then field_value show r g else none)
  unfolding entries_of
  find-entry f g fs = go (field_value show r g)
    where
      go :
          (o : Option Value)
          → find f (elim o [ none ↦ entries_of show r fs | some v ↦ (g, v) ∷ entries_of show r fs ])
            ≡ or_else (find f (entries_of show r fs)) (if same g f then o else none)
      go none = rw if_none (rw or_else-none)
      go (some v) = refl

  -- Every field is found among the entries with its resolved value.
  find-entries_of :
      (f : ResourceField) → find f (entries_of show r resource_fields) ≡ field_value show r f
  unfolding text_eq entries_of
  find-entries_of replicas = simp find-entry
  find-entries_of _ = simp (find-entry, or_else-none)

  field-put_entries :
      (f : ResourceField) (v : Value) (a b : Fields)
      → field_value show r f ≡ some v
      → get (field_name f) (node_of f (put_entries (entries_of show r resource_fields) a b))
        ≡ some v
  field-put_entries f v a b h =
      get-put_entries f (entries_of show r resource_fields) a b ∙ rw (find-entries_of f) (rw h)

  -- The class has no paths of its own.
  standard_without_paths :
      (values : Fields) (f : ResourceField) (v : Value)
      → field_value show r f ≡ some v
      → get_path (standard_path f) (inject_resources show values r none).0 ≡ some v
  unfolding inject_resources inject_standard
  standard_without_paths values replicas v h =
      get_path-put_object _ _ _ _ _
      ∙ get_path-put_object _ _ _ _ _
      ∙ unfold get_path text_eq in
        get-put_ne key_per_replica (field_name replicas) _ _ refl
        ∙ field-put_entries replicas v _ _ h
  standard_without_paths values f v h =
      get_path-put_object _ _ _ _ _
      ∙ get_path-put_object _ _ _ _ _
      ∙ get_path-put_object _ _ _ _ _
      ∙ unfold get_path in field-put_entries f v _ _ h

-- The path of a class writes nothing at `q`: it does not parse, or it parts from `q`.
abbrev pub Misses : List Text → Parsed → Type 0
Misses q (malformed e) = Unit
Misses q (segments segs) = Parts segs q

abbrev pub IsClear : List Text → Text → Type 0
IsClear q p = Misses q (parse_path p)

inject_path_frame :
    (q : List Text) (f : ResourceField) (v : Value) (p : Text) (r : Parsed) (m : Fields)
    (ws : List Warning)
    → Misses q r
    → get_path q (inject_path f v p r m ws).0 ≡ get_path q m
unfolding inject_path
inject_path_frame q f v p (malformed e) m ws h = refl
inject_path_frame q f v p (segments segs) m ws h = set_nested_value_frame m v h

inject_paths_frame :
    (q : List Text) (f : ResourceField) (v : Value) (ps : List Text) (m : Fields)
    (ws : List Warning)
    → All (IsClear q) ps
    → get_path q (inject_paths f v ps m ws).0 ≡ get_path q m
unfolding inject_paths
inject_paths_frame q f v [] m ws h = refl
inject_paths_frame q f v (p ∷ ps) m ws h =
    let (m', ws') = inject_path f v p (parse_path p) m ws in
    inject_paths_frame q f v ps m' ws' h.1 ∙ inject_path_frame q f v p (parse_path p) m ws h.0

inject_additional_frame :
    (q : List Text) (im : ResourceInjectionMap) (es : List (ResourceField × Value)) (m : Fields)
    (ws : List Warning)
    → ((f : ResourceField) → All (IsClear q) (im f))
    → get_path q (inject_additional im es m ws).0 ≡ get_path q m
unfolding inject_additional
inject_additional_frame q im [] m ws h = refl
inject_additional_frame q im ((f, v) ∷ es) m ws h =
    let (m', ws') = inject_paths f v (im f) m ws in
    inject_additional_frame q im es m' ws' h ∙ inject_paths_frame q f v (im f) m ws (h f)

module _ {Q : Type 0} (show : Q → Text) where
  -- The user's values outside `_exalsius` are left alone at every path that parts from all paths
  -- of the class.
  pub inject_resources_frame :
      (values : Fields) (r : WorkspaceResourceSpec Q) (im : ResourceInjectionMap) (k : Text)
      (q : List Text)
      → text_eq exalsius_values_key k ≡ false
      → ((f : ResourceField) → All (IsClear (k ∷ q)) (im f))
      → get_path (k ∷ q) (inject_resources show values r (some im)).0 ≡ get_path (k ∷ q) values
  unfolding inject_resources inject_standard
  inject_resources_frame values r im k q e h =
      inject_additional_frame (k ∷ q) im _ _ [] h
      ∙ get_path-get k q _ values (get-put_ne exalsius_values_key k _ values e)

-- No path of the class writes at `q`.
abbrev pub IsClearIn : List Text → Option ResourceInjectionMap → Type 0
IsClearIn q none = Unit
IsClearIn q (some im) = (f : ResourceField) → All (IsClear q) (im f)

module _ {Q : Type 0} (show : Q → Text) (r : WorkspaceResourceSpec Q) where
  -- Charts read every resolved field at its standard path, whatever the values held there before:
  -- the replica count under `_exalsius.resources`, the others under its `perReplica`. It holds for
  -- every class, with paths of its own or without, of which no path leads to or through that place.
  pub inject_resources-standard :
      (values : Fields) (f : ResourceField) (v : Value) (im : Option ResourceInjectionMap)
      → IsClearIn (standard_path f) im
      → field_value show r f ≡ some v
      → get_path (standard_path f) (inject_resources show values r im).0 ≡ some v
  unfolding inject_resources
  inject_resources-standard values f v none c h = standard_without_paths show r values f v h
  inject_resources-standard values f v (some im) c h =
      inject_additional_frame (standard_path f) im _ _ [] c
      ∙ standard_without_paths show r values f v h
