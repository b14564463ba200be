-- ===== src/Examples/Names.antt =====
-- Names of translated children, with a digest that is the same for every text.
use netbird_operator.Prelude.{◌≡◌, refl, length, Str, bytes}

abbrev digest : Str → Str
digest s = bytes "0123456789abcdef0123456789abcdef0123456789abcdef0123456789abcdef"

digest_long : (s : Str) → length (digest s) ≡ 64
digest_long s = refl
