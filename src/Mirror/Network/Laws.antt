-- ===== src/Mirror/Network/Laws.antt =====
-- The writes of `applyNetwork` (internal/controller/network_mirror.go).
use netbird_operator.Prelude.{
  ◌≡◌, refl, inl, inr, Bool-cases, Bool, true, false, List, [], ◌∷◌, Str, if◌then◌else◌,
}
use netbird_operator.Runtime.{Result, Result-cases, ok, err}
use netbird_operator.Api.{Network}
use netbird_operator.Api.Requests.{NetworkRequest}
use netbird_operator.Mirror.Ids.{verify_netbird_id}
use netbird_operator.Server.{Call, Server, Library, World}
use netbird_operator.Mirror.Network.{apply_network, apply_network_at, network_request}

-- The calls that `applyNetwork` makes: newest first, behind the recorded history.
abbrev asked : Str → List (Call Network) → List (Call Network)
asked [] h = h
asked (a ∷ id) h = Call.networks_get (a ∷ id) ∷ h

module _ (server : Server Network) (lib : Library) where
  -- The recorded network is there.
  abbrev present : Str → List (Call Network) → Result Bool
  present [] h = ok false
  present (a ∷ id) h = elim (server.networks_get h (a ∷ id)) [
    | ok _ ↦ ok true
    | err e ↦ if lib.is_not_found e then ok false else err e
  ]

  -- The one write, on the recorded network if it is present and a new one if not, and its answer.
  abbrev pub write : Str → NetworkRequest → List (Call Network) → Bool → Call Network × Result Str
  write id req h there =
      if there
      then (Call.networks_update id req, server.networks_update (asked id h) id req)
      else (Call.networks_create req, server.networks_create (asked id h) req)

  -- What the answer of the write makes of the result and of the object, whose status had an id.
  abbrev Answered : Str → Result Str → Network → Result (Unit {0}) × World Network → Type 0
  Answered id (ok new_id) net end =
      (end.0 ≡ ok tt) × (end.1.object ≡ record net { status = record { network_id = new_id } })
  Answered id (err e) net end =
      (end.0 ≡ err e) × (end.1.object ≡ record net { status = record { network_id = id } })

  -- How `applyNetwork` ends, from what the read of the recorded network gave.
  abbrev pub Applied :
      Str
      → NetworkRequest
      → World Network
      → Result Bool
      → Result (Unit {0}) × World Network
      → Type 0
  Applied id req w (err e) end =
      (end.0 ≡ err e) × (end.1.object ≡ w.object) × (end.1.history ≡ asked id w.history)
  Applied id req w (ok there) end =
      (end.1.history ≡ (write id req w.history there).0 ∷ asked id w.history)
      × Answered (if there then id else []) (write id req w.history there).1 w.object end

  apply_network_at-Applied :
      (id : Str) (req : NetworkRequest) (w : World Network)
      → Applied id req w (present id w.history) (apply_network_at server lib id req w)
  unfolding verify_netbird_id
  apply_network_at-Applied [] req w = elim (Result-cases (server.networks_create w.history req)) [
    | inl (new_id, e) ↦ rw e (refl, (refl, refl))
    | inr (x, e) ↦ rw e (refl, (refl, refl))
  ]
  apply_network_at-Applied (c ∷ id) req w =
      let h = Call.networks_get (c ∷ id) ∷ w.history in
      elim (Result-cases (server.networks_get w.history (c ∷ id))) [
        | inl (_, f) ↦ elim (Result-cases (server.networks_update h (c ∷ id) req)) [
          | inl (new_id, e) ↦ rw (f, e, present) (refl, (refl, refl))
          | inr (x, e) ↦ rw (f, e, present) (refl, (refl, refl))
        ]
        | inr (y, f) ↦ elim (Bool-cases (lib.is_not_found y)) [
          | inr failed ↦ rw (f, failed, present) (refl, refl, refl)
          | inl gone ↦ elim (Result-cases (server.networks_create h req)) [
            | inl (new_id, e) ↦ rw (f, gone, e, present) (refl, (refl, refl))
            | inr (x, e) ↦ rw (f, gone, e, present) (refl, (refl, refl))
          ]
        ]
      ]

  -- `applyNetwork`, whatever is answered. If the read of the recorded network fails other than by its
  -- absence, the error is returned, nothing is written and the object stays as it is. Otherwise it
  -- makes exactly one write behind that read, an update if the recorded network is there and a create
  -- if none is recorded or it is gone; the status takes the id that is answered, and if the write
  -- fails the error is returned and the status has the id of the network that is there, or none.
  pub apply_network-Applied :
      (w : World Network)
      → let id = w.object.status.network_id in
        Applied id (network_request w.object) w (present id w.history) (apply_network server lib w)
  unfolding apply_network
  apply_network-Applied w =
      apply_network_at-Applied w.object.status.network_id (network_request w.object) w
