-- ===== src/ReverseProxy/Digits.antt =====
-- The text of a port (`strconv.Itoa` in reverseproxyservice_mirror.go).
use netbird_operator.Prelude.Int.{ℤ, pos, negsuc}
use netbird_operator.Prelude.{
  ℕ, zero, suc, ◌+◌, ◌-◌, ◌*◌, ◌<◌, ◌≡◌, ◌∙◌, inl, inr, [], ◌∷◌, ◌++◌, Str, ltb, Bool-cases, arith,
  if◌then◌else◌,
}
use Prim.Native.Nat.{◌/◌, ◌%◌}

-- A number below ten to the power of the fuel has all its digits.
abbrev digits : ℕ → ℕ → Str
digits zero n = []
digits (suc fuel) n =
    let rest = digits fuel (n / 10) in
    if ltb n 10 then (n + b'0') ∷ [] else rest ++ (n % 10 + b'0') ∷ []

abbrev pub itoa : ℤ → Str
itoa (pos n) = digits 10 n
itoa (negsuc n) = b'-' ∷ digits 10 (n + 1)

-- What a numeral stands for, behind the digits already read.
abbrev read_from : ℕ → Str → ℕ
read_from acc [] = acc
read_from acc (c ∷ s) = read_from (acc * 10 + (c - b'0')) s

-- Ten to the power of the fuel.
abbrev room : ℕ → ℕ
room zero = 1
room (suc fuel) = room fuel * 10

read_from-append :
    (acc : ℕ) (s : Str) (d : ℕ) → read_from acc (s ++ (d + b'0') ∷ []) ≡ read_from acc s * 10 + d
read_from-append acc [] d = omega arith
read_from-append acc (c ∷ s) d = read_from-append (acc * 10 + (c - b'0')) s d

read_from-digits : (fuel n : ℕ) → n < room fuel → read_from 0 (digits fuel n) ≡ n
read_from-digits zero n h = omega arith
read_from-digits (suc fuel) n h = elim (Bool-cases (ltb n 10)) [
  | inl low ↦ rw low (omega arith)
  | inr high ↦
      let rest = read_from-digits fuel (n / 10) (omega arith) in
      rw high (read_from-append 0 (digits fuel (n / 10)) (n % 10) ∙ rw rest (omega arith))
]

-- Ten is enough fuel for a number that has at most ten digits, as an int32 has without its sign:
-- reading the digits gives the number back.
read_from-digits_ten : (n : ℕ) → n < 10000000000 → read_from 0 (digits 10 n) ≡ n
read_from-digits_ten n h = read_from-digits 10 n h
