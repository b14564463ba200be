-- ===== src/Lookup/Laws.antt =====
-- The shared-ownership scan, and the number of the resolved group references.
use netbird_operator.Prelude.{
  ◌+◌, ◌≡◌, inl, inr, refl, Bool, true, false, not, Option-cases, ◌&&◌, ◌||◌, Option, none, some,
  List, [], ◌∷◌, Str, arith, is_some, str_eq, any, all, length, length-append,
}
use netbird_operator.Runtime.{ok, Result-cases}
use netbird_operator.Api.{Object, GroupReference, Reference}
use netbird_operator.Server.{Call, Server, World}
use netbird_operator.Lookup.{
  another_live_matches, group_id, group_ids_from, append_id, get_group_ids,
}

module _ {S T : Type 0} where
  -- Another object that is not being deleted.
  abbrev pub is_rival : Object S T → Object S T → Bool
  is_rival self other = not (str_eq other.meta.uid self.meta.uid || other.meta.deleting)

  -- The scan finds nothing exactly when no other live object matches.
  pub another_live_matches_lem :
      (self : Object S T) (items : List (Object S T)) (match : Object S T → Bool)
      → another_live_matches self items match
        ≡ any (λ other. is_rival self other && match other) items
  unfolding another_live_matches
  another_live_matches_lem self [] match = refl
  another_live_matches_lem self (other ∷ others) match =
      ground (arith, another_live_matches_lem self others match)

-- The CRD's rule: some field is set.
abbrev pub is_set : GroupReference → Bool
is_set ref = is_some ref.name || (is_some ref.id || is_some ref.local_ref)

module _ {O : Type 0} (server : Server O) where
  group_id_set :
      (ref : GroupReference) (namespace : Str) (w : World O) (o : Option Str)
      → (group_id server ref namespace w).0 ≡ ok o
      → is_some o ≡ is_set ref
  group_id_set ref namespace w o h = ground arith

  length-group_ids_from :
      (refs : List GroupReference) (namespace : Str) (ids result : List Str) (w : World O)
      → all is_set refs ≡ true
      → (group_ids_from server refs namespace ids w).0 ≡ ok result
      → length result ≡ length ids + length refs
  length-group_ids_from [] namespace ids result w set h = ground arith
  length-group_ids_from (ref ∷ refs) namespace ids result w set h =
      elim (Result-cases (group_id server ref namespace w).0) [
        | inl (o, e) ↦ ground (
          arith,
          group_id_set ref namespace w o e,
          length_append_id ids o,
          length-group_ids_from refs namespace (append_id server ids o) result
              (group_id server ref namespace w).1,
        )
        | inr (x, e) ↦ absurd (ground arith)
      ]
    where
      length_append_id :
          (ids : List Str) (o : Option Str)
          → is_some o ≡ true
          → length (append_id server ids o) ≡ length ids + 1
      length_append_id ids none p = cc
      length_append_id ids (some id) p = omega (arith, length-append ids (id ∷ []))

  -- References that each set some field resolve to one id each, or to an error.
  length-get_group_ids :
      (refs : List GroupReference) (namespace : Str) (ids : List Str) (w : World O)
      → all is_set refs ≡ true
      → (get_group_ids server refs namespace w).0 ≡ ok ids
      → length ids ≡ length refs
  unfolding get_group_ids
  length-get_group_ids refs namespace ids w set h =
      omega (arith, length-group_ids_from refs namespace [] ids w set h)

  -- A call that only reads groups is not one of those that are counted.
  abbrev Skips : (Call O → Bool) → Type 0
  Skips f =
      ((name : Str) → f (Call.groups_get_by_name name) ≡ false)
      × ((id : Str) → f (Call.groups_get id) ≡ false)
      × ((key : Reference) → f (Call.kube_group key) ≡ false)

  any-group_id :
      (f : Call O → Bool)
      → Skips f
      → (ref : GroupReference) (namespace : Str) (w : World O)
      → any f (group_id server ref namespace w).1.history ≡ any f w.history
  any-group_id f skips ref namespace w = elim (Option-cases ref.name) [
    | inr (name, e) ↦ ground (arith, skips.0 name)
    | inl e ↦ elim (Option-cases ref.id) [
      | inr (id, d) ↦ ground (arith, skips.1 id)
      | inl d ↦ elim (Option-cases ref.local_ref) [
        | inr (local, c) ↦ ground (arith, skips.2 (record { name = local; namespace = namespace }))
        | inl c ↦ ground arith
      ]
    ]
  ]

  any-group_ids_from :
      (f : Call O → Bool)
      → Skips f
      → (refs : List GroupReference) (namespace : Str) (ids : List Str) (w : World O)
      → any f (group_ids_from server refs namespace ids w).1.history ≡ any f w.history
  any-group_ids_from f skips [] namespace ids w = refl
  any-group_ids_from f skips (ref ∷ refs) namespace ids w =
      elim (Result-cases (group_id server ref namespace w).0) [
        | inl (o, e) ↦ ground (
          arith,
          any-group_id f skips ref namespace w,
          any-group_ids_from f skips refs namespace (append_id server ids o)
              (group_id server ref namespace w).1,
        )
        | inr (x, e) ↦ ground (arith, any-group_id f skips ref namespace w)
      ]

  -- Resolving groups makes no call but the reads of groups.
  pub any-get_group_ids :
      (f : Call O → Bool)
      → Skips f
      → (refs : List GroupReference) (namespace : Str) (w : World O)
      → any f (get_group_ids server refs namespace w).1.history ≡ any f w.history
  unfolding get_group_ids
  any-get_group_ids f skips refs namespace w = any-group_ids_from f skips refs namespace [] w

  group_id_object :
      (ref : GroupReference) (namespace : Str) (w : World O)
      → (group_id server ref namespace w).1.object ≡ w.object
  group_id_object ref namespace w = ground arith

  group_ids_from_object :
      (refs : List GroupReference) (namespace : Str) (ids : List Str) (w : World O)
      → (group_ids_from server refs namespace ids w).1.object ≡ w.object
  group_ids_from_object [] namespace ids w = refl
  group_ids_from_object (ref ∷ refs) namespace ids w =
      elim (Result-cases (group_id server ref namespace w).0) [
        | inl (o, e) ↦ ground (
          arith,
          group_id_object ref namespace w,
          group_ids_from_object refs namespace (append_id server ids o)
              (group_id server ref namespace w).1,
        )
        | inr (x, e) ↦ ground (arith, group_id_object ref namespace w)
      ]

  -- Resolving groups leaves the object under reconciliation alone.
  pub get_group_ids_object :
      (refs : List GroupReference) (namespace : Str) (w : World O)
      → (get_group_ids server refs namespace w).1.object ≡ w.object
  unfolding get_group_ids
  get_group_ids_object refs namespace w = group_ids_from_object refs namespace [] w
