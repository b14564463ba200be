-- ===== src/ProxyCluster/Laws/Addresses.antt =====
-- The addresses of a proxy and the records that publish them (reverseproxycluster_controller.go).
use netbird_operator.Prelude.{
  All, arith, ◌≡◌, refl, inl, inr, Bool, true, false, Option, none, some, List, [], ◌∷◌, keep, find,
  Bool-cases, Str, if◌then◌else◌,
}
use netbird_operator.LoadBalancer.{IpFamily, ipv4, ipv6, FamilyAddress, lb_ingress_addresses}
use netbird_operator.ProxyCluster.Address.{family_eq, seen_family, first_addresses}

-- The address is of the family.
abbrev pub of_family : IpFamily → FamilyAddress → Bool
of_family family fa = family_eq family fa.family

abbrev to_list : {A : Type 0} → Option A → List A
to_list none = []
to_list (some a) = a ∷ []

abbrev unseen : IpFamily → List IpFamily → List FamilyAddress → List FamilyAddress
unseen family seen fas =
    if seen_family family seen then [] else to_list (find (of_family family) fas)

families : (f g : IpFamily) → family_eq f g ≡ true → f ≡ g
families ipv4 ipv4 h = refl
families ipv4 ipv6 h = cc
families ipv6 ipv4 h = cc
families ipv6 ipv6 h = refl

keep-first_addresses_from :
    (family : IpFamily) (fas : List FamilyAddress) (seen : List IpFamily)
    → keep (of_family family) (first_addresses fas seen) ≡ unseen family seen fas
unfolding first_addresses
keep-first_addresses_from family [] seen = ground arith
keep-first_addresses_from family (fa ∷ fas) seen = elim (Bool-cases (seen_family fa.family seen)) [
  | inl e ↦
      rw e (ground (arith, keep-first_addresses_from family fas seen, families family fa.family))
  | inr e ↦ rw e (
      ground
        (arith, keep-first_addresses_from family fas (fa.family ∷ seen), families family fa.family))
]

-- Of the ingress addresses of each family, exactly the first is published.
keep-first_addresses :
    (family : IpFamily) (fas : List FamilyAddress)
    → keep (of_family family) (first_addresses fas []) ≡ to_list (find (of_family family) fas)
keep-first_addresses family fas = keep-first_addresses_from family fas []

module _ (ip_family : Str → Option IpFamily) where
  -- The address is an IP of its family.
  abbrev IsIp : FamilyAddress → Type 0
  IsIp fa = ip_family fa.address ≡ some fa.family

  -- The addresses are IPs of their families, and each family is new.
  abbrev pub Fresh : List FamilyAddress → List IpFamily → Type 0
  Fresh [] seen = Unit
  Fresh (fa ∷ fas) seen =
      IsIp fa × (seen_family fa.family seen ≡ false) × Fresh fas (fa.family ∷ seen)

  pub lb_ingress_addresses-IsIp : (ips : List Str) → All IsIp (lb_ingress_addresses ip_family ips)
  unfolding lb_ingress_addresses
  lb_ingress_addresses-IsIp [] = tt
  lb_ingress_addresses-IsIp (ip ∷ ips) = ground (arith, lb_ingress_addresses-IsIp ips)

  pub first_addresses-Fresh :
      (fas : List FamilyAddress) (seen : List IpFamily)
      → All IsIp fas
      → Fresh (first_addresses fas seen) seen
  unfolding first_addresses
  first_addresses-Fresh [] seen p = tt
  first_addresses-Fresh (fa ∷ fas) seen p = elim (Bool-cases (seen_family fa.family seen)) [
    | inl e ↦ rw e (first_addresses-Fresh fas seen p.1)
    | inr e ↦ rw e (p.0, e, first_addresses-Fresh fas (fa.family ∷ seen) p.1)
  ]
