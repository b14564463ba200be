-- ===== src/Runtime/Yields.antt =====
-- What a method returns when it succeeds, whatever the outside world does: the rules that follow the
-- structure of its body.
use netbird_operator.Prelude.{◌≡◌, arith, Bool, true, false, inl, inr, if◌then◌else◌}
use netbird_operator.Runtime.Errors.{Error, ok, Result-cases}
use netbird_operator.Runtime.Exec.{Exec, pure, raise, ◌>>=◌}

module _ {W A : Type 0} (P : A → Type 0) where
  -- Each result of the method satisfies `P`.
  abbrev pub Yields : Exec W A → Type 0
  Yields m = (w : W) (a : A) → (m w).0 ≡ ok a → P a

  pub pure-Yields : (a : A) → P a → Yields (pure a)
  pure-Yields a p w b h = ground arith

  pub bind-Yields :
      {B : Type 0} (m : Exec W B) (f : B → Exec W A) → ((b : B) → Yields (f b)) → Yields (m >>= f)
  bind-Yields m f rest w a h = elim (Result-cases (m w).0) [
    | inl (b, e) ↦ rest b (m w).1 a (rw e at h)
    | inr (x, e) ↦ let failed = rw e at h in absurd (ground arith)
  ]

module _ {W A : Type 0} (P : A → W → Type 0) where
  -- Each result of the method satisfies `P` with the state that it leaves.
  abbrev pub Leaves : Exec W A → Type 0
  Leaves m = (w : W) (a : A) → (m w).0 ≡ ok a → P a (m w).1

  pub raise-Leaves : (e : Error) → Leaves (raise e)
  raise-Leaves e w a h = absurd (ground arith)

  pub if-Leaves : (b : Bool) (m n : Exec W A) → Leaves m → Leaves n → Leaves (if b then m else n)
  if-Leaves true m n p q = p
  if-Leaves false m n p q = q

  pub bind-Leaves :
      {B : Type 0} (m : Exec W B) (f : B → Exec W A) → ((b : B) → Leaves (f b)) → Leaves (m >>= f)
  bind-Leaves m f rest w a h = elim (Result-cases (m w).0) [
    | inl (b, e) ↦ rw e (rest b (m w).1 a (rw e at h))
    | inr (x, e) ↦ let failed = rw e at h in absurd (ground arith)
  ]
