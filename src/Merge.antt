-- ===== src/Merge.antt =====
-- internal/controller/workspaces/merge.go, mergeValuesMap: the default values of a class with the
-- user's on top. The texts are decoded before; what decoding gives is a parameter.
pub mod Laws
use exalsius_operator.Prelude.{Option, none, some}
use exalsius_operator.Values.{Fields, put, field, end}

-- What the JSON of a values field decodes to: the field is absent, no object and not null, null, or
-- an object.
pub data RawValues : Type 0 where
  absent malformed_values null_values : RawValues
  object_values : Fields → RawValues

-- The result: the error of the decoder, the run-time panic of a write into a nil map, or a map,
-- where `none` is the nil map.
pub data Merged : Type 0 where
  merge_error merge_panic : Merged
  merged : Option Fields → Merged

-- The loop over the user's map; its keys are distinct, so the order of the loop does not matter.
unfoldable pub put_all : Fields → Fields → Fields
put_all m end = m
put_all m (field k v u) = put k v (put_all m u)

-- The loop, which panics at the first key where the map is nil.
unfoldable pub put_user : Option Fields → Fields → Merged
put_user (some m) u = merged (some (put_all m u))
put_user none end = merged none
put_user none (field k v u) = merge_panic

unfoldable pub merge_user : Option Fields → RawValues → Merged
merge_user m absent = merged m
merge_user m malformed_values = merge_error
merge_user m null_values = merged m
merge_user m (object_values u) = put_user m u

unfoldable pub merge_values_map : RawValues → RawValues → Merged
merge_values_map absent user = merge_user (some end) user
merge_values_map malformed_values user = merge_error
merge_values_map null_values user = merge_user none user
merge_values_map (object_values m) user = merge_user (some (put_all end m)) user
