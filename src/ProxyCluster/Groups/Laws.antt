-- ===== src/ProxyCluster/Groups/Laws.antt =====
-- What becomes of the groups of a reverse-proxy cluster on their way to the LoadBalancer controller.
use netbird_operator.Prelude.{
  arith, ◌≡◌, ◌≢◌, refl, Bool, true, false, not, ◌&&◌, Option, none, some, List, [], ◌∷◌, ◌++◌, any,
  all, ◌==◌, Str, is_empty, is_some, str_eq, str_eq→eq, if◌then◌else◌,
}
use netbird_operator.Api.{GroupReference}
use netbird_operator.Api.Proxies.{ReverseProxyCluster}
use netbird_operator.LoadBalancer.{Config, resource_groups}
use netbird_operator.ProxyCluster.Workload.{proxy_service}
use netbird_operator.LoadBalancer.Words.{split, words, trimmed_parts, trim_space}
use netbird_operator.ProxyCluster.Groups.{join, named, group_names, group_ref_ac, group_ref_acs}

-- A name that the annotation can carry: it is not empty, has no comma and no blank at its ends.
abbrev pub is_plain : Str → Bool
is_plain n = not (is_empty n) && not (any (λ c. c == b',') n) && str_eq (trim_space n) n

split_free : (t : Str) → any (λ c. c == b',') t ≡ false → split b',' t ≡ t ∷ []
unfolding split
split_free [] h = refl
split_free (c ∷ t) h = rw (split_free t (ground arith)) (ground arith)

split-join_cons :
    (t r : Str) → any (λ c. c == b',') t ≡ false → split b',' (t ++ (b',' ∷ r)) ≡ t ∷ split b',' r
unfolding split
split-join_cons [] r h = refl
split-join_cons (c ∷ t) r h = rw (split-join_cons t r (ground arith)) (ground arith)

split-join :
    (n : Str) (ns : List Str)
    → all is_plain (n ∷ ns) ≡ true
    → split b',' (join b',' (n ∷ ns)) ≡ n ∷ ns
unfolding join
split-join n [] p = split_free n (ground arith)
split-join n (m ∷ ns) p =
    rw (split-join_cons n (join b',' (m ∷ ns)) (ground arith), split-join m ns (ground arith)) refl

trimmed_parts_plain : (ns : List Str) → all is_plain ns ≡ true → trimmed_parts ns ≡ ns
unfolding trimmed_parts
trimmed_parts_plain [] p = refl
trimmed_parts_plain (n ∷ ns) p =
    rw (trimmed_parts_plain ns (ground arith), str_eq→eq (trim_space n) n (ground arith))
      (ground arith)

-- Names that the annotation can carry are read back from it as they were joined.
pub words-join : (ns : List Str) → all is_plain ns ≡ true → ns ≢ [] → words (join b',' ns) ≡ ns
unfolding words
words-join [] p set = absurd (set refl)
words-join (n ∷ ns) p set = rw (split-join n ns p, trimmed_parts_plain (n ∷ ns) p) refl

joined_set : (ns : List Str) → all is_plain ns ≡ true → ns ≢ [] → is_empty (join b',' ns) ≡ false
unfolding join
joined_set [] p set = absurd (set refl)
joined_set ((c ∷ n) ∷ []) p set = refl
joined_set ((c ∷ n) ∷ (m ∷ ns)) p set = refl
joined_set ([] ∷ ns) p set = cc

-- The names of the groups of a cluster, where each can be carried by the annotation, are the groups
-- that the LoadBalancer controller reads from the Service of the proxy: neither the annotations of
-- the cluster or of the namespace nor the default groups of that controller replace them.
pub resource_groups-proxy_service :
    (cfg : Config) (rpc : ReverseProxyCluster) (ns : List (Str × Str))
    → all is_plain (named rpc.spec.groups) ≡ true
    → named rpc.spec.groups ≢ []
    → resource_groups cfg (proxy_service rpc).annotations ns ≡ named rpc.spec.groups
unfolding resource_groups proxy_service group_names str_eq
resource_groups-proxy_service cfg rpc ns p set =
    rw (joined_set (named rpc.spec.groups) p set, joined_set (named rpc.spec.groups) p set)
      (words-join (named rpc.spec.groups) p set)

-- The CRD's rule: exactly one field is set.
abbrev is_single : GroupReference → Bool
is_single g =
    if is_some g.name
    then not (is_some g.id) && not (is_some g.local_ref)
    else if is_some g.id
    then not (is_some g.local_ref)
    else is_some g.local_ref

abbrev fields : Option Str → Option Str → Option Str → GroupReference
fields name id local = record { name = name; id = id; local_ref = local }

fields_single :
    (name id local : Option Str)
    → is_single (fields name id local) ≡ true
    → group_ref_ac (fields name id local) ≡ fields name id local
fields_single none none none p = cc
fields_single none none (some l) p = refl
fields_single none (some i) none p = refl
fields_single none (some i) (some l) p = cc
fields_single (some n) none none p = refl
fields_single (some n) none (some l) p = cc
fields_single (some n) (some i) local p = cc

-- References that set exactly one field are applied as they are.
group_ref_acs_single : (gs : List GroupReference) → all is_single gs ≡ true → group_ref_acs gs ≡ gs
group_ref_acs_single [] p = refl
group_ref_acs_single (g ∷ gs) p =
    ground (arith, fields_single g.name g.id g.local_ref, group_ref_acs_single gs)
