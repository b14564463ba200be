-- ===== src/Gateway/Reconcile/Listeners.antt =====
-- What the listeners of a Gateway report (gateway_controller.go).
use netbird_operator.Prelude.{
  arith, ◌≡◌, refl, sym, ◌∙◌, inl, inr, Bool, true, false, ◌&&◌, Option, none, some, List, [], ◌∷◌,
  find, Bool-cases, Str, bytes, str_eq,
}
use netbird_operator.Runtime.{Error, Result-cases}
use netbird_operator.Runtime.Exec.{pure}
use netbird_operator.Runtime.Yields.{Yields, pure-Yields, bind-Yields}
use netbird_operator.Server.{Server, Library, World}
use netbird_operator.Gateway.Types.{Gateway, Listener, Route}
use netbird_operator.Gateway.Hostname.{listener_under_domain}
use netbird_operator.Gateway.Admission.{GatewayProxy}
use netbird_operator.Gateway.Status.{
  Condition, ListenerStatus, GatewayObject, SetCondition, accepted_type, programmed_type,
  used_status, unused_status, listener_accepted, listener_programmed, resolved_condition,
  unused_condition,
}
use netbird_operator.Gateway.Reconcile.{listener_status, statuses_loop, cert_there}

-- The condition of a type, `meta.FindStatusCondition`.
abbrev pub find_condition : Str → List Condition → Option Condition
find_condition type = find (λ c. str_eq c.type type)

-- What `meta.SetStatusCondition` documents: it updates or adds the condition of that type, and leaves
-- the others.
pub record SetsCondition (set_condition : SetCondition) : Type 0 where
  pub sets :
      (c : Condition) (cs : List Condition) → find_condition c.type (set_condition c cs) ≡ some c
  pub leaves :
      (c : Condition) (cs : List Condition) (type : Str)
      → str_eq c.type type ≡ false
      → find_condition type (set_condition c cs) ≡ find_condition type cs

-- The status of the condition of a type is True.
abbrev pub is_true : Str → List Condition → Bool
is_true type cs = elim (find_condition type cs) [ some c ↦ c.status | none ↦ false ]

abbrev is_true_of : Option Condition → Bool
is_true_of (some c) = c.status
is_true_of none = false

is_true_lem :
    (type : Str) (cs : List Condition) (o : Option Condition)
    → find_condition type cs ≡ o
    → is_true type cs ≡ is_true_of o
is_true_lem type cs none e = rw (e, is_true) refl
is_true_lem type cs (some c) e = rw (e, is_true) refl

-- Three conditions of different types, set one after another.
three_set :
    (set_condition : SetCondition) (s : SetsCondition set_condition) (a r p : Condition)
    → str_eq r.type a.type ≡ false
    → str_eq p.type a.type ≡ false
    → str_eq p.type r.type ≡ false
    → let cs = set_condition p (set_condition r (set_condition a [])) in
      (is_true a.type cs ≡ a.status)
      × (is_true r.type cs ≡ r.status)
      × (is_true p.type cs ≡ p.status)
three_set set_condition s a r p ra pa pr =
    let one = set_condition a [] in
    let two = set_condition r one in
    (
      is_true_lem a.type _ (some a)
          (s.leaves p two a.type pa ∙ (s.leaves r one a.type ra ∙ s.sets a [])),
      is_true_lem r.type _ (some r) (s.leaves p two r.type pr ∙ s.sets r one),
      is_true_lem p.type _ (some p) (s.sets p two),
    )

pub two_set :
    (set_condition : SetCondition) (s : SetsCondition set_condition) (a p : Condition)
    (cs : List Condition)
    → str_eq p.type a.type ≡ false
    → let cs' = set_condition p (set_condition a cs) in
      (is_true a.type cs' ≡ a.status) × (is_true p.type cs' ≡ p.status)
two_set set_condition s a p cs pa =
    let one = set_condition a cs in
    let two = set_condition p one in
    (
      is_true_lem a.type two (some a) (s.leaves p one a.type pa ∙ s.sets a cs),
      is_true_lem p.type two (some p) (s.sets p one),
    )

module _ (server : Server GatewayObject) (lib : Library) (set_condition : SetCondition)
    (error_string : Error → Str) where
  -- What a listener reports.
  pub record IsReported (cfg : GatewayProxy) (programmed : Bool) (l : Listener) (s : ListenerStatus)
      : Type 0 where
    pub named : s.name ≡ l.name
    pub accepted : is_true accepted_type s.conditions ≡ listener_under_domain l cfg.domain
    pub resolved :
        is_true programmed_type s.conditions
        ≡ (programmed && is_true (bytes "ResolvedRefs") s.conditions)

  used-IsReported :
      SetsCondition set_condition
      → (gw : Gateway) (cfg : GatewayProxy) (programmed cert_ok : Bool) (routes : List Route)
        (l : Listener)
      → listener_under_domain l cfg.domain ≡ true
      → IsReported cfg programmed l (used_status set_condition gw programmed routes l cert_ok)
  unfolding str_eq
  used-IsReported s gw cfg programmed true routes l e =
      let (a, r, p) =
        three_set set_condition s (listener_accepted gw) (resolved_condition gw l true)
          (listener_programmed gw (programmed && true)) refl refl refl in
      record { named = refl; accepted = a ∙ sym e; resolved = rw (p, r) refl }
  used-IsReported s gw cfg programmed false routes l e =
      let (a, r, p) =
        three_set set_condition s (listener_accepted gw) (resolved_condition gw l false)
          (listener_programmed gw (programmed && false)) refl refl refl in
      record { named = refl; accepted = a ∙ sym e; resolved = rw (p, r) refl }

  unused-IsReported :
      SetsCondition set_condition
      → (gw : Gateway) (cfg : GatewayProxy) (programmed : Bool) (l : Listener)
      → listener_under_domain l cfg.domain ≡ false
      → IsReported cfg programmed l (unused_status set_condition gw cfg l)
  unfolding str_eq
  unused-IsReported s gw cfg programmed l e =
      let c = unused_condition gw cfg in
      let cs = set_condition c [] in
      record {
        named = refl;
        accepted = is_true_lem accepted_type cs (some c) (s.sets c []) ∙ sym e;
        resolved =
            rw
              (
                is_true_lem programmed_type cs none (s.leaves c [] programmed_type refl),
                is_true_lem (bytes "ResolvedRefs") cs none
                    (s.leaves c [] (bytes "ResolvedRefs") refl),
              )
              (ground arith);
      }

  listener_status-Yields :
      SetsCondition set_condition
      → (gw : Gateway) (cfg : GatewayProxy) (programmed : Bool) (routes : List Route) (l : Listener)
      → Yields
          (IsReported cfg programmed l)
          (listener_status server lib set_condition error_string gw cfg programmed routes l)
  listener_status-Yields s gw cfg programmed routes l w a h =
      elim (Bool-cases (listener_under_domain l cfg.domain)) [
        | inr e ↦
            pure-Yields (IsReported cfg programmed l) _ (unused-IsReported s gw cfg programmed l e)
              w a (rw e at h)
        | inl e ↦
            bind-Yields (IsReported cfg programmed l)
              (cert_there server lib set_condition error_string gw l.certificate_refs)
              (λ cert_ok. pure (used_status set_condition gw programmed routes l cert_ok))
              (λ cert_ok.
                pure-Yields (IsReported cfg programmed l) _
                  (used-IsReported s gw cfg programmed cert_ok routes l e))
              w a (rw e at h)
      ]

  -- One report for each listener, in order.
  abbrev pub AllReported : GatewayProxy → Bool → List Listener → List ListenerStatus → Type 0
  AllReported cfg programmed [] [] = Unit
  AllReported cfg programmed [] (_ ∷ _) = ⊥
  AllReported cfg programmed (_ ∷ _) [] = ⊥
  AllReported cfg programmed (l ∷ ls) (s ∷ ss) =
      IsReported cfg programmed l s × AllReported cfg programmed ls ss

  pub statuses_loop-Yields :
      SetsCondition set_condition
      → (gw : Gateway) (cfg : GatewayProxy) (programmed : Bool) (routes : List Route)
        (ls : List Listener)
      → Yields
          (AllReported cfg programmed ls)
          (statuses_loop server lib set_condition error_string gw cfg programmed routes ls)
  unfolding statuses_loop
  statuses_loop-Yields s gw cfg programmed routes [] w a h =
      pure-Yields (AllReported cfg programmed []) [] tt w a h
  statuses_loop-Yields s gw cfg programmed routes (l ∷ ls) w a h =
      let one = listener_status server lib set_condition error_string gw cfg programmed routes l in
      let rest = statuses_loop server lib set_condition error_string gw cfg programmed routes ls in
      elim (Result-cases (one w).0) [
        | inr (x, e) ↦ let failed = rw e at h in absurd (ground arith)
        | inl (b, e) ↦ elim (Result-cases (rest (one w).1).0) [
          | inr (x, f) ↦ let failed = rw (e, f) at h in absurd (ground arith)
          | inl (bs, f) ↦
              pure-Yields (AllReported cfg programmed (l ∷ ls)) (b ∷ bs)
                (
                  listener_status-Yields s gw cfg programmed routes l w b e,
                  statuses_loop-Yields s gw cfg programmed routes ls (one w).1 bs f,
                )
                w a (rw (e, f) at h)
        ]
      ]

  listener_status_object :
      (gw : Gateway) (cfg : GatewayProxy) (programmed : Bool) (routes : List Route) (l : Listener)
      (w : World GatewayObject)
      → (listener_status server lib set_condition error_string gw cfg programmed routes l
          w).1.object
        ≡ w.object
  listener_status_object gw cfg programmed routes l w = ground arith

  pub statuses_loop_object :
      (gw : Gateway) (cfg : GatewayProxy) (programmed : Bool) (routes : List Route)
      (ls : List Listener) (w : World GatewayObject)
      → (statuses_loop server lib set_condition error_string gw cfg programmed routes ls w).1.object
        ≡ w.object
  unfolding statuses_loop
  statuses_loop_object gw cfg programmed routes [] w = refl
  statuses_loop_object gw cfg programmed routes (l ∷ ls) w =
      let one = listener_status server lib set_condition error_string gw cfg programmed routes l in
      let rest = statuses_loop server lib set_condition error_string gw cfg programmed routes ls in
      let same = listener_status_object gw cfg programmed routes l w in
      let kept = statuses_loop_object gw cfg programmed routes ls (one w).1 in
      elim (Result-cases (one w).0) [
        | inr (x, e) ↦ rw e same
        | inl (b, e) ↦ elim (Result-cases (rest (one w).1).0) [
          | inr (x, f) ↦ rw (e, f) (kept ∙ same)
          | inl (bs, f) ↦ rw (e, f) (kept ∙ same)
        ]
      ]
