-- ===== src/LoadBalancer/Words.antt =====
-- Texts as the annotations list them: `strings.ToLower`, `strings.Split` and `strings.TrimSpace`, on
-- ASCII.
use netbird_operator.Prelude.{
  ℕ, ◌+◌, ◌&&◌, List, [], ◌∷◌, Str, is_empty, leb, ◌==◌, any, if◌then◌else◌,
}
use netbird_operator.Gateway.Naming.{trim_right}

abbrev pub to_lower : Str → Str
to_lower [] = []
to_lower (c ∷ t) = (if leb 65 c && leb c 90 then c + 32 else c) ∷ to_lower t

abbrev add_first : ℕ → List Str → List Str
add_first c [] = (c ∷ []) ∷ []
add_first c (t ∷ ts) = (c ∷ t) ∷ ts

-- `strings.Split` at a separator of one byte.
unfoldable pub split : ℕ → Str → List Str
split sep [] = [] ∷ []
split sep (c ∷ t) = let rest = split sep t in if c == sep then [] ∷ rest else add_first c rest

abbrev spaces : Str
spaces = 9 ∷ 10 ∷ 11 ∷ 12 ∷ 13 ∷ 32 ∷ []

abbrev trim_left : Str → Str
trim_left [] = []
trim_left (c ∷ t) = if any (λ s. s == c) spaces then trim_left t else c ∷ t

abbrev pub trim_space : Str → Str
trim_space t = trim_right (trim_left t) spaces

-- The parts that are not empty once they are trimmed.
unfoldable pub trimmed_parts : List Str → List Str
trimmed_parts [] = []
trimmed_parts (t ∷ ts) =
    let rest = trimmed_parts ts in if is_empty (trim_space t) then rest else trim_space t ∷ rest

-- The loop of `resourceGroups`.
unfoldable pub words : Str → List Str
words v = trimmed_parts (split b',' v)
