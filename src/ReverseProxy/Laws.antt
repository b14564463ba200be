-- ===== src/ReverseProxy/Laws.antt =====
-- What a reverse-proxy service is registered as.
use netbird_operator.Prelude.{
  ◌≡◌, ◌⊎◌, inl, inr, refl, Bool, true, false, not, ◌&&◌, ◌||◌, ◌==◌, Option, List, [], ◌∷◌, ◌++◌,
  Str, arith, Bool-cases, any, is_some, ltb, length,
}
use netbird_operator.Runtime.{ok, Result-cases}
use netbird_operator.Api.Requests.{ProxyCluster}
use netbird_operator.Api.Services.{ServiceTarget, ServiceRequest}
use netbird_operator.Server.{Call, Server, Library, World}
use netbird_operator.LoadBalancer.{IpFamily}
use netbird_operator.Mirror.{set_status}
use netbird_operator.ReverseProxy.{
  target_before, ReverseProxyService, is_http, service_mode, port_label_domain,
}
use netbird_operator.ReverseProxy.Apply.{
  Sorting, is_true, service_request, service_domain, access_groups, upsert_service, finish_apply,
  render_loop, with_cluster, find_cluster, apply_reverse_proxy_service,
}

-- The domain of a port is a sibling of the host: it has the host's first label, a dash and the label
-- of the port in place of the first label, and the rest of the host unchanged.
port_label_domain_sibling :
    (first rest label : Str)
    → any (λ c. c == b'.') first ≡ false
    → port_label_domain (first ++ (b'.' ∷ rest)) label ≡ first ++ (b'-' ∷ (label ++ (b'.' ∷ rest)))
unfolding port_label_domain
port_label_domain_sibling [] rest label h = ground arith
port_label_domain_sibling (c ∷ first) rest label h =
    ground (arith, port_label_domain_sibling first rest label)

-- The request is one that NetBird may take for its mode: access groups only for a private HTTP
-- service, a listen port only for another mode, and no private flag outside HTTP.
abbrev scoped : ServiceRequest → Bool
scoped req =
    (not (is_some req.access_groups) || (is_http req.mode && is_true req.private))
    && (not (is_some req.listen_port) || not (is_http req.mode))
    && (not (is_some req.private) || is_http req.mode)

module _ (sorting : Sorting) (ip_family : Str → Option IpFamily)
    (server : Server ReverseProxyService) (lib : Library) where
  -- The last call sent the request of the spec, with the recorded domain, and it is scoped.
  abbrev pub Registered : ReverseProxyService → World ReverseProxyService → Type 0
  Registered rps end =
      (req : ServiceRequest) × (before : List (Call ReverseProxyService)) × (req.name
        ≡ rps.meta.name)
      × (req.mode ≡ (service_mode rps.spec.mode).0)
      × (scoped req ≡ true)
      × (end.object.status.service_domain ≡ req.domain)
      × ((end.history ≡ Call.services_create req ∷ before)
          ⊎ ((id : Str) × (end.history ≡ Call.services_update id req ∷ before)))

  groups_scoped :
      (rps : ReverseProxyService) (w : World ReverseProxyService) (groups : Option (List Str))
      → (access_groups sorting ip_family server lib rps w).0 ≡ ok groups
      → (not (is_some groups)
          || (is_http (service_mode rps.spec.mode).0 && is_true rps.spec.private))
        ≡ true
  groups_scoped rps w groups h =
      elim (Bool-cases (is_http (service_mode rps.spec.mode).0 && is_true rps.spec.private)) [
        | inl sent ↦ ground arith
        | inr unsent ↦ let none_sent = rw unsent at h in ground arith
      ]

  request_scoped :
      (rps : ReverseProxyService) (domain : Str) (targets : List ServiceTarget)
      (groups : Option (List Str))
      → (not (is_some groups)
          || (is_http (service_mode rps.spec.mode).0 && is_true rps.spec.private))
        ≡ true
      → scoped (service_request rps domain targets groups) ≡ true
  request_scoped rps domain targets groups h = ground arith

  -- The last call sent the request, and its domain is recorded.
  abbrev Sent : ServiceRequest → World ReverseProxyService → Type 0
  Sent req end =
      (before : List (Call ReverseProxyService)) × (end.object.status.service_domain ≡ req.domain)
      × ((end.history ≡ Call.services_create req ∷ before)
          ⊎ ((id : Str) × (end.history ≡ Call.services_update id req ∷ before)))

  upsert_service-Sent :
      (req : ServiceRequest) (id : Str) (w : World ReverseProxyService)
      → w.object.status.service_domain ≡ req.domain
      → (upsert_service sorting ip_family server lib req id w).0 ≡ ok tt
      → Sent req (upsert_service sorting ip_family server lib req id w).1
  upsert_service-Sent req [] w same h = elim (Result-cases (server.services_create w.history req)) [
    | inl (new_id, e) ↦ rw e (w.history, same, inl refl)
    | inr (x, e) ↦ absurd (ground arith)
  ]
  upsert_service-Sent req (a ∷ id) w same h =
      elim (Result-cases (server.services_update w.history (a ∷ id) req)) [
        | inl (new_id, e) ↦ rw e (w.history, same, inr (a ∷ id, refl))
        | inr (x, e) ↦ elim (Bool-cases (lib.is_not_found x)) [
          | inl gone ↦
              let tried = Call.services_update (a ∷ id) req ∷ w.history in
              elim (Result-cases (server.services_create tried req)) [
                | inl (new_id, f) ↦ rw (e, gone, f) (tried, same, inl refl)
                | inr (y, f) ↦ let failed = rw (e, gone, f) at h in absurd (ground arith)
              ]
          | inr kept ↦ let failed = rw (e, kept) at h in absurd (ground arith)
        ]
      ]

  finish_apply-Registered :
      (rps : ReverseProxyService) (rendered : List ServiceTarget × Str)
      (w : World ReverseProxyService)
      → (finish_apply sorting ip_family server lib rps rendered w).0 ≡ ok tt
      → Registered rps (finish_apply sorting ip_family server lib rps rendered w).1
  finish_apply-Registered rps rendered w h =
      elim (Result-cases (access_groups sorting ip_family server lib rps w).0) [
        | inl (groups, e) ↦
            let v = (access_groups sorting ip_family server lib rps w).1 in
            let domain = service_domain rps.spec rendered.1 in
            let targets = sorting.sort_targets target_before rendered.0 in
            let req = service_request rps domain targets groups in
            let (before, same, last) =
              upsert_service-Sent req v.object.status.service_id
                (set_status (λ s. record s { service_domain = domain }) v) refl (rw e at h) in
            rw e (
              req,
              before,
              refl,
              refl,
              request_scoped rps domain targets groups (groups_scoped rps w groups e),
              same,
              last,
            )
        | inr (x, e) ↦ let failed = rw e at h in absurd (ground arith)
      ]

  with_cluster-Registered :
      (rps : ReverseProxyService) (cluster : ProxyCluster) (w : World ReverseProxyService)
      → (with_cluster sorting ip_family server lib rps cluster w).0 ≡ ok tt
      → Registered rps (with_cluster sorting ip_family server lib rps cluster w).1
  with_cluster-Registered rps cluster w h =
      elim (Bool-cases
        (not (is_http (service_mode rps.spec.mode).0) && ltb 1 (length rps.spec.backends))) [
          | inl many ↦ let failed = rw many at h in absurd (ground arith)
          | inr few ↦
              elim (Result-cases
                (render_loop sorting ip_family server lib rps cluster rps.spec.backends [] []
                  w).0) [
                    | inl (rendered, e) ↦
                        rw (few, e)
                          (finish_apply-Registered rps rendered
                            (render_loop sorting ip_family server lib rps cluster rps.spec.backends
                              [] [] w).1
                            (rw (few, e) at h))
                    | inr (x, e) ↦ let failed = rw (few, e) at h in absurd (ground arith)
                  ]
        ]

  -- An apply that succeeds ended by sending a request under the resource's name and mode, whose
  -- domain the status records, with access groups only if the service is private and HTTP, a listen
  -- port only if it is not HTTP, and a private flag only if it is HTTP.
  pub apply_reverse_proxy_service-Registered :
      (w : World ReverseProxyService)
      → (apply_reverse_proxy_service sorting ip_family server lib w).0 ≡ ok tt
      → Registered w.object (apply_reverse_proxy_service sorting ip_family server lib w).1
  unfolding apply_reverse_proxy_service
  apply_reverse_proxy_service-Registered w h =
      elim (Result-cases
        (find_cluster sorting ip_family server lib w.object.spec.proxy_cluster w).0) [
          | inl (cluster, e) ↦ rw e (
              with_cluster-Registered w.object cluster
                (find_cluster sorting ip_family server lib w.object.spec.proxy_cluster w).1
                (rw e at h))
          | inr (x, e) ↦ let failed = rw e at h in absurd (ground arith)
        ]
