-- ===== src/Naming.antt =====
-- The names that the operator derives: internal/controller/workspaces/routing/naming.go,
-- service_apply.go and prerequisites.go. `hex n` stands for the hexadecimal digits of the first `n`
-- bytes of the SHA-256 sum of a text.
pub mod Bounds
use exalsius_operator.Prelude.{
  ℕ, ◌+◌, ◌-◌, Bool, true, false, ◌&&◌, ◌||◌, [], ◌∷◌, ◌++◌, map, Text, bytes, is_empty, length,
  take, is_nil, leb, ◌==◌, if◌then◌else◌,
}

abbrev pub max_service_set_name_len : ℕ
max_service_set_name_len = 63

abbrev pub max_dns1123_label : ℕ
max_dns1123_label = 63

abbrev pub waypoint_name_suffix : Text
waypoint_name_suffix = bytes "-waypoint"

abbrev is_dash_or_dot : ℕ → Bool
is_dash_or_dot c = (c == b'-') || (c == b'.')

-- `strings.TrimRight(s, "-.")`
unfoldable pub trim_right : Text → Text
trim_right [] = []
trim_right (c ∷ s) = let t = trim_right s in if is_nil t && is_dash_or_dot c then [] else c ∷ t

module _ (hex : ℕ → Text → Text) where
  -- boundedName
  unfoldable pub bounded_name : Text → Text
  bounded_name name =
      if leb (length name) max_service_set_name_len
      then name
      else (let suffix = bytes "-" ++ hex 4 name in
          trim_right (take (max_service_set_name_len - length suffix) name) ++ suffix)

  -- WaypointNameForClusterDeployment: the name is cut to make room for the dash, the hash and the
  -- suffix.
  unfoldable pub waypoint_name : Text → Text
  waypoint_name cd_name =
      let name = cd_name ++ waypoint_name_suffix in
      if leb (length name) max_dns1123_label
      then name
      else (let h = take 8 (hex 32 cd_name) in
          let keep_len = max_dns1123_label - (1 + length h) - length waypoint_name_suffix in
          take keep_len cd_name ++ (bytes "-" ++ (h ++ waypoint_name_suffix)))

-- HelmReleaseName
unfoldable pub helm_release_name : Text → Text → Text
helm_release_name cd_name wsd_name = bytes "wsd-" ++ (cd_name ++ (bytes "-" ++ wsd_name))

-- WorkspaceNamespaceName
unfoldable pub workspace_namespace_name : Text → Text
workspace_namespace_name wsd_name = bytes "ws-" ++ wsd_name

-- EndpointServiceName, of the explicit service name and the name of the endpoint
unfoldable pub endpoint_service_name : Text → Text → Text → Text → Text
endpoint_service_name cd_name wsd_name service_name ep_name =
    if is_empty service_name
    then helm_release_name cd_name wsd_name ++ (bytes "-" ++ ep_name)
    else service_name

module _ (hex : ℕ → Text → Text) where
  unfoldable pub service_set_name : Text → Text → Text
  service_set_name cd_name wsd_name = bounded_name hex (helm_release_name cd_name wsd_name)

  unfoldable pub prerequisite_service_set_name : Text → Text → Text
  prerequisite_service_set_name cd_name template_name =
      bounded_name hex (bytes "wsprereq-" ++ (cd_name ++ (bytes "-" ++ template_name)))

-- `labelValueRE`: up to 63 bytes, letters and digits at both ends, dashes, underscores and dots
-- between them.
unfoldable pub is_alnum : ℕ → Bool
is_alnum c =
    (leb b'A' c && leb c b'Z') || ((leb b'a' c && leb c b'z') || (leb b'0' c && leb c b'9'))

unfoldable pub is_label_char : ℕ → Bool
is_label_char c = is_alnum c || ((c == b'-') || ((c == b'_') || (c == b'.')))

-- The rest of a value behind its first byte: the last byte is a letter or a digit.
unfoldable pub label_tail : Text → Bool
label_tail [] = true
label_tail (c ∷ []) = is_alnum c
label_tail (c ∷ d ∷ s) = is_label_char c && label_tail (d ∷ s)

unfoldable pub is_label_value : Text → Bool
is_label_value [] = false
is_label_value (c ∷ s) = is_alnum c && (label_tail s && leb (length s) 62)

-- `strings.ToLower` on ASCII
unfoldable pub lower : ℕ → ℕ
lower c = if leb b'A' c && leb c b'Z' then c + 32 else c

module _ (hex : ℕ → Text → Text) where
  unfoldable pub sanitize_label_value : Text → Text
  sanitize_label_value v = if is_label_value v then v else bytes "hash-" ++ hex 8 v

  unfoldable pub sanitize_service_entry_name : Text → Text
  sanitize_service_entry_name template_name =
      let s = map lower template_name in
      if is_label_value s then s else bytes "prereq-" ++ hex 8 template_name
