-- ===== src/Values.antt =====
-- Helm values: the maps of JSON values that the operator merges and writes into
-- (internal/controller/workspaces/inject.go, setNestedValue). Maps of one tree do not share nodes,
-- so writing through a pointer into the tree is an update of the tree.
pub mod Laws
use exalsius_operator.Prelude.{
  ℕ, Bool, true, false, ◌||◌, Option, none, some, List, [], ◌∷◌, Text, text_eq, if◌then◌else◌,
}

mutual
  pub data Value : Type 0 where
    null : Value
    boolean : Bool → Value
    int64 : ℕ → Value
    number : Text → Value
    text : Text → Value
    array : Items → Value
    object : Fields → Value

  pub data Items : Type 0 where
    nil : Items
    cons : Value → Items → Items

  pub data Fields : Type 0 where
    end : Fields
    field : Text → Value → Fields → Fields

-- `v, ok := m[k]`
unfoldable pub get : Text → Fields → Option Value
get k end = none
get k (field j v m) = if text_eq j k then some v else get k m

-- `m[k] = v`
unfoldable pub put : Text → Value → Fields → Fields
put k v end = field k v end
put k v (field j w m) = if text_eq j k then field j v m else field j w (put k v m)

-- A value that is there and not nil.
abbrev pub is_set : Option Value → Bool
is_set none = false
is_set (some null) = false
is_set (some v) = true

-- The type assertion `.(map[string]any)`.
abbrev pub as_map : Option Value → Option Fields
as_map (some (object m)) = some m
as_map _ = none

-- The map to go on with, and whether a value that is no map was replaced by it.
abbrev pub enter : Option Value → Fields × Bool
enter o = elim (as_map o) [ none ↦ (end, is_set o) | some m ↦ (m, false) ]

-- What setNestedValue leaves: the map, the previous value, and the flag that it returns.
pub record Written : Type 0 where
  pub fields : Fields
  pub previous : Option Value
  pub overwritten : Bool

-- `overwritten` is the source's named result, as the walk has set it so far. At the leaf the
-- `return` statement gives a value of its own.
unfoldable pub set_nested : Fields → List Text → Value → Bool → Written
set_nested m [] v overwritten = record { fields = m; previous = none; overwritten = overwritten }
set_nested m (seg ∷ []) v overwritten = record {
  fields = put seg v m;
  previous = get seg m;
  overwritten = is_set (get seg m);
}
set_nested m (seg ∷ t ∷ path) v overwritten =
    let (next, replaced) = enter (get seg m) in
    let w = set_nested next (t ∷ path) v (overwritten || replaced) in
    record w { fields = put seg (object w.fields) m }

unfoldable pub set_nested_value : Fields → List Text → Value → Written
unfolding set_nested
set_nested_value m [] v = record { fields = m; previous = none; overwritten = false }
set_nested_value m (t ∷ path) v = set_nested m (t ∷ path) v false
