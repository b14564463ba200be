-- ===== src/Gateway/Naming.antt =====
-- Object names and label values of translated children (gateway_controller.go). The hexadecimal
-- SHA-256 digest is a parameter.
pub mod Laws
use netbird_operator.Prelude.{
  ℕ, ◌+◌, ◌-◌, Bool, true, false, ◌&&◌, ◌||◌, List, [], ◌∷◌, ◌++◌, leb, ◌==◌, if◌then◌else◌, any,
  length, take, Str, bytes, is_empty,
}
use netbird_operator.Gateway.Types.{Route}

abbrev label_value_max_len : ℕ
label_value_max_len = 63

abbrev pub object_name_max_len : ℕ
object_name_max_len = 253

-- `strings.TrimRight`: the text without the trailing bytes of the cutset.
unfoldable pub trim_right : Str → Str → Str
trim_right [] cutset = []
trim_right (a ∷ s) cutset =
    let rest = trim_right s cutset in
    if is_empty rest && any (λ c. c == a) cutset then [] else a ∷ rest

-- `strings.ReplaceAll` for a pattern of one byte.
unfoldable pub replace_all : Str → ℕ → Str → Str
replace_all [] old new = []
replace_all (a ∷ s) old new = (if a == old then new else a ∷ []) ++ replace_all s old new

-- The readable head of `routeChildName`.
abbrev pub readable : Str → Str → Str
readable route_name hostname =
    let h = replace_all (replace_all hostname b'*' (bytes "wildcard")) b'.' (bytes "-") in
    route_name ++ (b'-' ∷ h)

module _ (hex_sha256 : Str → Str) where
  -- The tail that `safeName` puts in place of what it cuts.
  abbrev pub suffix : Str → Str
  suffix s = b'-' ∷ take 8 (hex_sha256 s)

  -- `safeName`; every caller passes a constant `max` of 9 or more.
  unfoldable pub safe_name : Str → ℕ → Str
  unfolding trim_right
  safe_name s max =
      if leb (length s) max
      then s
      else trim_right (take (max - length (suffix s)) s) (bytes "-._") ++ suffix s

  -- `httpRouteLabelValue`
  unfoldable pub http_route_label_value : Route → Str
  unfolding safe_name
  http_route_label_value route = safe_name route.name label_value_max_len

  -- `routeChildName`
  unfoldable pub route_child_name : Str → Str → Str
  route_child_name route_name hostname =
      safe_name (readable route_name hostname) (object_name_max_len - 9)
      ++ (b'-' ∷ take 8 (hex_sha256 (route_name ++ (0 ∷ hostname))))
