-- ===== src/Program/Laws.antt =====
-- The levels that a verbosity gives (internal/logging/logging.go), and the separators of the flags.
use netbird_operator.Prelude.{
  ℕ, zero, suc, ◌-◌, ◌<◌, ◌≤◌, ◌≡◌, ◌≢◌, refl, ap, arith, true, false, List, [], Str, ltb, all,
}
use Prim.Native.Nat.{◌%◌}
use netbird_operator.Prelude.Int.{pos, negsuc, negated}
use netbird_operator.Program.{level_of_verbosity, int_leb, split_groups}
use netbird_operator.LoadBalancer.Words.{words}
use netbird_operator.ProxyCluster.Groups.{join}
use netbird_operator.ProxyCluster.Groups.Laws.{is_plain, words-join}

-- A verbosity of at most 128 gives its own negation as the level.
level_of_verbosity_small : (n : ℕ) → n ≤ 128 → level_of_verbosity n ≡ negated n
unfolding level_of_verbosity
level_of_verbosity_small zero h = refl
level_of_verbosity_small (suc n) h =
    let low : (256 - suc n % 256) % 256 ≡ 255 - n = omega arith in
    rw low
      (let high : ltb (255 - n) 128 ≡ false = ground arith in rw high (ap negsuc (omega arith)))

-- A verbosity from 129 to 255 wraps around to a level above zero, which logs less than `info`.
pub level_of_verbosity_wraps : (n : ℕ) → 128 < n → n < 256 → level_of_verbosity n ≡ pos (256 - n)
unfolding level_of_verbosity
level_of_verbosity_wraps n h k =
    let low : (256 - n % 256) % 256 ≡ 256 - n = omega arith in
    rw low (let small : ltb (256 - n) 128 ≡ true = ground arith in rw small refl)

-- Of two verbosities up to 128, the larger one gives the lower level, which logs more.
level_of_verbosity_antitone :
    (n m : ℕ) → n ≤ m → m ≤ 128 → int_leb (level_of_verbosity m) (level_of_verbosity n) ≡ true
level_of_verbosity_antitone n m h k =
    rw (level_of_verbosity_small n (omega arith), level_of_verbosity_small m k) (negated_leb n m h)
  where
    negated_leb : (a b : ℕ) → a ≤ b → int_leb (negated b) (negated a) ≡ true
    negated_leb zero zero e = refl
    negated_leb zero (suc b) e = refl
    negated_leb (suc a) zero e = absurd (omega arith)
    negated_leb (suc a) (suc b) e = ground arith

-- Plain names that a flag lists with commas are read as they were written.
split_groups-join :
    (ns : List Str) → all is_plain ns ≡ true → ns ≢ [] → split_groups (join b',' ns) ≡ ns
unfolding split_groups words
split_groups-join ns p set = words-join ns p set
