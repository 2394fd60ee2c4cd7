-- ===== src/Examples/Writing.antt =====
-- Values and resources of one workspace.
use exalsius_operator.Inject.{
  ResourceInjectionMap, replicas, field_value, inject_resources, ResourceField,
}
use exalsius_operator.InjectPath.{parse_path, segments, path_loop, path_step, flush_bare}
use exalsius_operator.InjectPath.RoundTrip.{render, parse_path-render, quoted, bare, key_of}
use exalsius_operator.InjectPath.Sound.{IsPath, parse_path-IsPath}
use exalsius_operator.Prelude.{
  ◌≡◌, refl, none, some, [], ◌∷◌, Text, bytes, text_eq, map, All, is_empty, is_nil,
}
use exalsius_operator.Resources.{ResourceRequirements, WorkspaceResourceSpec}
use exalsius_operator.Values.{Fields, text, null, field, end, set_nested_value, int64}
use exalsius_operator.Values.Laws.{
  get_path, get_path-set_nested_value, set_nested_value_frame, Parts,
}
use exalsius_operator.Inject.Laws.{
  standard_path, inject_resources-standard, IsClear, inject_resources_frame,
}

abbrev path_text : Text
path_text = bytes "server.replicas"

abbrev values : Fields
values = field (bytes "server") (text (bytes "small")) (field (bytes "keep") null end)

abbrev no_requirements : ResourceRequirements Text
no_requirements = record {
  cpu = some (bytes "4");
  memory = none;
  storage = none;
  gpu_count = some 2;
  gpu_vendor = none;
  gpu_type = some (bytes "L40");
  gpu_node_selector = none;
}

abbrev resources : WorkspaceResourceSpec Text
resources = record { replicas = some 3; per_replica = no_requirements }

abbrev injection : ResourceInjectionMap
injection replicas = path_text ∷ []
injection _ = []

abbrev identity : Text → Text
identity t = t

parse_path-IsPath_example : IsPath (parse_path path_text)
parse_path-IsPath_example = parse_path-IsPath path_text

parse_path-render_example :
    parse_path (render (bare (bytes "a") ∷ quoted b'"' (bytes "b.c") ∷ []))
    ≡ segments (map key_of (bare (bytes "a") ∷ quoted b'"' (bytes "b.c") ∷ []))
unfolding is_empty
parse_path-render_example =
    parse_path-render (bare (bytes "a")) (quoted b'"' (bytes "b.c") ∷ [])
      ((refl, refl), ((refl, (refl, refl)), tt))

get_path-set_nested_value_example :
    get_path
      (bytes "server" ∷ bytes "size" ∷ [])
      (set_nested_value values (bytes "server" ∷ bytes "size" ∷ []) (int64 3)).fields
    ≡ some (int64 3)
get_path-set_nested_value_example =
    get_path-set_nested_value values (bytes "server") (bytes "size" ∷ []) (int64 3)

set_nested_value_frame_example :
    get_path (bytes "keep" ∷ []) (set_nested_value values (bytes "server" ∷ []) (int64 3)).fields
    ≡ get_path (bytes "keep" ∷ []) values
unfolding text_eq
set_nested_value_frame_example = set_nested_value_frame values (int64 3) (Parts.here refl)

inject_resources-standard_example :
    get_path
      (standard_path replicas)
      (inject_resources identity values resources (some injection)).0
    ≡ some (int64 3)
unfolding field_value text_eq parse_path path_loop path_step flush_bare is_empty is_nil
inject_resources-standard_example =
    inject_resources-standard identity resources values replicas (int64 3) (some injection) clear
      refl
  where
    clear : (f : ResourceField) → All (IsClear (standard_path replicas)) (injection f)
    clear replicas = (Parts.here refl, tt)
    clear _ = tt

inject_resources_frame_example :
    get_path (bytes "keep" ∷ []) (inject_resources identity values resources (some injection)).0
    ≡ get_path (bytes "keep" ∷ []) values
unfolding text_eq parse_path path_loop path_step flush_bare is_empty is_nil
inject_resources_frame_example =
    inject_resources_frame identity values resources injection (bytes "keep") [] refl clear
  where
    clear : (f : ResourceField) → All (IsClear (bytes "keep" ∷ [])) (injection f)
    clear replicas = (Parts.here refl, tt)
    clear _ = tt
