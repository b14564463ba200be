-- ===== src/ClusterProxy/Laws.antt =====
-- What the controller of the cluster proxy applies, and when it waits
-- (clusterproxy_controller.go).
use netbird_operator.Prelude.{
  arith, ◌≡◌, ◌⊎◌, refl, inl, inr, true, false, List, [], ◌∷◌, Str, Bool-cases, is_empty, all,
}
use netbird_operator.Runtime.{Error, Result, Result-cases, ok, err}
use netbird_operator.Api.{Reference, SetupKey, GroupReference, reconciled}
use netbird_operator.Api.Requests.{OwnerReference}
use netbird_operator.Api.Proxies.{ClusterProxy}
use netbird_operator.Server.{Call, Child, Server, Library, World, ignore_not_found}
use netbird_operator.Mirror.{Requeue, mark}
use netbird_operator.ProxyCluster.Groups.{group_ref_acs}
use netbird_operator.Lookup.Laws.{is_set}
use netbird_operator.ClusterProxy.{
  with_key, auto_groups, key_reference, key_spec, set_up, deploy, reference, api_key_entry,
  proxy_deployment,
}

module _ (hex_sha256 : Str → Str) (api_key management_url : Str) (server : Server ClusterProxy)
    (lib : Library) (req : Reference) (owner : OwnerReference) (cp : ClusterProxy) where
  -- The history behind the two calls on the setup key.
  abbrev keyed : List (Call ClusterProxy) → List (Call ClusterProxy)
  keyed h =
      let ref = key_reference hex_sha256 api_key management_url server lib req cp in
      Call.kube_setup_key ref
      ∷ Call.apply (Child.proxy_setup_key owner ref (key_spec hex_sha256 api_key management_url cp))
      ∷ h

  -- What the cluster answers to the read of the setup key, behind its apply.
  abbrev pub answered : List (Call ClusterProxy) → Result SetupKey
  answered h =
      let ref = key_reference hex_sha256 api_key management_url server lib req cp in
      server.kube_setup_key
        (Call.apply
            (Child.proxy_setup_key owner ref (key_spec hex_sha256 api_key management_url cp))
          ∷ h)
        ref

  -- The cluster has no such key, or has one without an id: nothing but the two calls was made.
  abbrev pub Waits : World ClusterProxy → World ClusterProxy → Type 0
  Waits w v =
      (((x : Error) × (answered w.history ≡ err x) × (lib.kube_is_not_found x ≡ true))
        ⊎ ((key : SetupKey) × (answered w.history ≡ ok key)
            × (is_empty key.status.setup_key_id ≡ true)))
      × (v ≡ record w { history = keyed w.history })

  -- The cluster has the key with an id, and the Secret and the Deployment for that key were applied,
  -- in this order.
  abbrev pub Deployed : World ClusterProxy → World ClusterProxy → Type 0
  Deployed w v =
      (key : SetupKey) × (answered w.history ≡ ok key)
      × (is_empty key.status.setup_key_id ≡ false)
      × (v.object.ready ≡ reconciled)
      × (v.history
          ≡ Call.patch true v.object
            ∷ Call.apply (
                Child.deployment owner (reference req)
                  (proxy_deployment hex_sha256 api_key management_url cp req.name key))
            ∷ Call.apply (Child.secret_entry owner (reference req) (api_key_entry, api_key))
            ∷ keyed w.history)

  -- A set-up that succeeds ends in one of two ways, by what the cluster answers to the read of the
  -- setup key that it applied. If the key is not there, or has no id, it made no other call and the
  -- object is as it was. If the key has an id, the Secret and the Deployment for that very key were
  -- applied before the object was marked Ready.
  pub set_up-cases :
      (w : World ClusterProxy) (q : Requeue)
      → let m = set_up hex_sha256 api_key management_url server lib req owner cp w in
        m.0 ≡ ok q → Waits w m.1 ⊎ Deployed w m.1
  unfolding set_up deploy
  set_up-cases w q h =
      let ref = key_reference hex_sha256 api_key management_url server lib req cp in
      let child = Child.proxy_setup_key owner ref (key_spec hex_sha256 api_key management_url cp) in
      let secret = Child.secret_entry owner (reference req) (api_key_entry, api_key) in
      elim (Result-cases (server.apply w.history child)) [
        | inr (x, a) ↦ let failed = rw a at h in absurd (ground arith)
        | inl (_, a) ↦
            elim (Result-cases (server.kube_setup_key (Call.apply child ∷ w.history) ref)) [
              | inr (x, k) ↦ elim (Bool-cases (lib.kube_is_not_found x)) [
                | inl gone ↦
                    inl (inl (x, k, gone), rw (a, k, with_key, ignore_not_found, gone) refl)
                | inr found ↦
                    let failed = rw (a, k, with_key, ignore_not_found, found) at h in
                    absurd (ground arith)
              ]
              | inl (key, k) ↦ elim (Bool-cases (is_empty key.status.setup_key_id)) [
                | inl new ↦ inl (inr (key, k, new), rw (a, k, new) refl)
                | inr set ↦ elim (Result-cases (server.apply (keyed w.history) secret)) [
                  | inr (x, s) ↦ let failed = rw (a, k, set, s) at h in absurd (ground arith)
                  | inl (_, s) ↦
                      let depl =
                        Child.deployment owner (reference req)
                          (proxy_deployment hex_sha256 api_key management_url cp req.name key) in
                      elim (Result-cases
                        (server.apply (Call.apply secret ∷ keyed w.history) depl)) [
                          | inr (x, d) ↦
                              let failed = rw (a, k, set, s, d) at h in absurd (ground arith)
                          | inl (_, d) ↦
                              elim (Result-cases (
                                server.patch (Call.apply depl ∷ Call.apply secret ∷ keyed w.history)
                                  true (mark reconciled w).object)) [
                                    | inr (x, p) ↦ inr (
                                      key,
                                      k,
                                      set,
                                      rw (a, k, set, s, d, p) refl,
                                      rw (a, k, set, s, d, p) refl,
                                    )
                                    | inl (_, p) ↦ inr (
                                      key,
                                      k,
                                      set,
                                      rw (a, k, set, s, d, p) refl,
                                      rw (a, k, set, s, d, p) refl,
                                    )
                                  ]
                        ]
                ]
              ]
            ]
      ]

-- Groups that each set some field are all passed on, in order and one for one.
auto_groups_set :
    (gs : List GroupReference) → all is_set gs ≡ true → auto_groups gs ≡ group_ref_acs gs
unfolding auto_groups
auto_groups_set [] h = refl
auto_groups_set (g ∷ gs) h = ground (arith, auto_groups_set gs)
