-- ===== src/ProxyCluster/Groups.antt =====
-- The group references of a reverse-proxy cluster (reverseproxycluster_controller.go).
pub mod Laws
use netbird_operator.Prelude.{Option, none, some, ℕ, List, [], ◌∷◌, ◌++◌, map, Str}
use netbird_operator.Api.{GroupReference}

abbrev pub no_group : GroupReference
no_group = record { name = none; id = none; local_ref = none }

-- The `switch` of `groupRefACs`.
abbrev pub group_ref_ac : GroupReference → GroupReference
group_ref_ac g = elim g.id [
  | some id ↦ record no_group { id = some id }
  | none ↦ elim g.name [
    | some name ↦ record no_group { name = some name }
    | none ↦ elim g.local_ref [
      | some local ↦ record no_group { local_ref = some local }
      | none ↦ no_group
    ]
  ]
]

-- `groupRefACs`
abbrev pub group_ref_acs : List GroupReference → List GroupReference
group_ref_acs = map group_ref_ac

-- `strings.Join` with a separator of one byte.
unfoldable pub join : ℕ → List Str → Str
join sep [] = []
join sep (t ∷ []) = t
join sep (t ∷ (u ∷ us)) = t ++ (sep ∷ join sep (u ∷ us))

-- The loop of `groupNames`.
abbrev pub named : List GroupReference → List Str
named [] = []
named (g ∷ gs) = elim g.name [ some name ↦ name ∷ named gs | none ↦ named gs ]

-- `groupNames`
unfoldable pub group_names : List GroupReference → Str
unfolding join
group_names groups = join b',' (named groups)
