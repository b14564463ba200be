-- ===== src/Gateway/Naming/Laws.antt =====
-- Lengths and collisions of the names of translated children.
use netbird_operator.Prelude.{
  ℕ, ◌-◌, ◌≤◌, ◌<◌, ◌≡◌, ap, false, [], ◌∷◌, ◌++◌, leb, leb→le, length, take, length-append,
  length-take, length-take-le, Str, bytes, arith, Bool-cases, inl, inr,
}
use netbird_operator.Gateway.Naming.{
  trim_right, safe_name, suffix, route_child_name, readable, object_name_max_len,
}

length-trim_right-le : (s cutset : Str) → length (trim_right s cutset) ≤ length s
unfolding trim_right
length-trim_right-le [] cutset = omega arith
length-trim_right-le (a ∷ s) cutset = ground (arith, length-trim_right-le s cutset)

-- Suffixes of one length, behind whatever texts, are equal if the wholes are.
append_cancel : (xs ys s t : Str) → length s ≡ length t → xs ++ s ≡ ys ++ t → s ≡ t
append_cancel [] [] s t n e = e
append_cancel [] (y ∷ ys) s t n e = absurd (omega (arith, ap length e, length-append ys t))
append_cancel (x ∷ xs) [] s t n e = absurd (omega (arith, ap length e, length-append xs s))
append_cancel (x ∷ xs) (y ∷ ys) s t n e = append_cancel xs ys s t n (cc)

abbrev tail : Str → Str
tail [] = []
tail (a ∷ s) = s

lt→leb : (a b : ℕ) → b < a → leb a b ≡ false
lt→leb a b h = ground arith

module _ (hex_sha256 : Str → Str) (long : (s : Str) → length (hex_sha256 s) ≡ 64) where
  length-suffix : (s : Str) → length (suffix hex_sha256 s) ≡ 9
  length-suffix s = omega (arith, length-take 8 (hex_sha256 s) (omega (arith, long s)))

  -- A name never passes its cap, if the cap leaves room for the hash.
  length-safe_name-le : (s : Str) (max : ℕ) → 9 ≤ max → length (safe_name hex_sha256 s max) ≤ max
  unfolding safe_name
  length-safe_name-le s max room = elim (Bool-cases (leb (length s) max)) [
    | inl short ↦ rw short (leb→le (length s) max short)
    | inr cut ↦ rw cut (
        omega (
          arith,
          length-suffix s,
          length-append (trim_right (take (max - length (suffix hex_sha256 s)) s) (bytes "-._"))
              (suffix hex_sha256 s),
          length-trim_right-le (take (max - length (suffix hex_sha256 s)) s) (bytes "-._"),
          length-take-le (max - length (suffix hex_sha256 s)) s,
        ))
  ]

  -- A name within the cap is kept.
  safe_name_short : (s : Str) (max : ℕ) → length s ≤ max → safe_name hex_sha256 s max ≡ s
  unfolding safe_name
  safe_name_short s max h = ground arith

  -- Two cut names that are equal have the same eight digits of hash.
  safe_name_cut_collide :
      (s t : Str) (max : ℕ)
      → max < length s
      → max < length t
      → safe_name hex_sha256 s max ≡ safe_name hex_sha256 t max
      → take 8 (hex_sha256 s) ≡ take 8 (hex_sha256 t)
  unfolding safe_name
  safe_name_cut_collide s t max p q e = ap tail (
      append_cancel (head s) (head t) (suffix hex_sha256 s) (suffix hex_sha256 t)
        (omega (arith, length-suffix s, length-suffix t))
        (rw (lt→leb (length s) max p, lt→leb (length t) max q) at e))
    where
      head : Str → Str
      head u = trim_right (take (max - length (suffix hex_sha256 u)) u) (bytes "-._")

  -- The name of a translated child fits the cap on object names.
  length-route_child_name-le :
      (route_name hostname : Str)
      → length (route_child_name hex_sha256 route_name hostname) ≤ object_name_max_len
  unfolding route_child_name
  length-route_child_name-le route_name hostname =
      let name = safe_name hex_sha256 (readable route_name hostname) 244 in
      let pair = route_name ++ (0 ∷ hostname) in
      omega (
        arith,
        length-append name (suffix hex_sha256 pair),
        length-suffix pair,
        length-safe_name-le (readable route_name hostname) 244 (omega arith),
      )

  -- Two children that share a name have pairs of route and hostname whose digests agree in their
  -- first eight digits.
  route_child_name_collide :
      (r h r' h' : Str)
      → route_child_name hex_sha256 r h ≡ route_child_name hex_sha256 r' h'
      → take 8 (hex_sha256 (r ++ (0 ∷ h))) ≡ take 8 (hex_sha256 (r' ++ (0 ∷ h')))
  unfolding route_child_name
  route_child_name_collide r h r' h' e = ap tail (
      append_cancel (safe_name hex_sha256 (readable r h) 244)
        (safe_name hex_sha256 (readable r' h') 244) (suffix hex_sha256 (r ++ (0 ∷ h)))
        (suffix hex_sha256 (r' ++ (0 ∷ h')))
        (omega (arith, length-suffix (r ++ (0 ∷ h)), length-suffix (r' ++ (0 ∷ h')))) e)
