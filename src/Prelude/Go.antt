-- ===== src/Prelude/Go.antt =====
-- What the Go code uses of its language: results with panics, and slices with spare capacity.
use Prim.Native.Nat.{ℕ, ◌+◌, ◌-◌}
use mathlib.Core.Bool.{◌&&◌}
use mathlib.Core.List.{List, ◌++◌}
use mathlib.Core.Logic.{◌⊎◌, inl, inr}
use mathlib.Core.Path.{◌≡◌, refl, ap}
use kubezonnet.Prelude.Tests.{leb, if◌then◌else◌}
use kubezonnet.Prelude.Lists.{length, take, drop}

-- A call returns a value, returns an error, or panics.
pub data Outcome {ℓ} (E A : Type ℓ) : Type ℓ where
  ok : A → Outcome E A
  err : E → Outcome E A
  panic : Outcome E A

infixl 5 ◌>>=◌
abbrev pub ◌>>=◌ {ℓ} : {E A B : Type ℓ} → Outcome E A → (A → Outcome E B) → Outcome E B
ok a >>= f = f a
err e >>= f = err e
panic >>= f = panic

pub Outcome-cases {ℓ} :
    {E A : Type ℓ} (o : Outcome E A)
    → ((a : A) × (o ≡ ok a)) ⊎ ((e : E) × (o ≡ err e)) ⊎ (o ≡ panic)
Outcome-cases (ok a) = inl (a, refl)
Outcome-cases (err e) = inr (inl (e, refl))
Outcome-cases panic = inr (inr refl)

pub ok-injective {ℓ} : {E A : Type ℓ} {a b : A} → ◌≡◌ {A = Outcome E A} (ok a) (ok b) → a ≡ b
ok-injective {a} h = ap (λ o. elim o [ ok x ↦ x | err e ↦ a | panic ↦ a ]) h

-- A call that returns or panics, and has no error to report.
abbrev pub NeverErrs {ℓ} : {E A : Type ℓ} → Outcome E A → Type 0
NeverErrs (ok a) = Unit
NeverErrs (err e) = ⊥
NeverErrs panic = Unit

module _ {ℓ} {E A B : Type ℓ} where
  pub bind-NeverErrs :
      (m : Outcome E A) (f : A → Outcome E B)
      → NeverErrs m
      → ((a : A) → NeverErrs (f a))
      → NeverErrs (m >>= f)
  bind-NeverErrs (ok a) f h k = k a
  bind-NeverErrs (err e) f h k = absurd h
  bind-NeverErrs panic f h k = tt

  pub bind-panic :
      (m : Outcome E A) (f : A → Outcome E B)
      → NeverErrs m
      → ((a : A) → f a ≡ panic)
      → (m >>= f) ≡ panic
  bind-panic (ok a) f h k = k a
  bind-panic (err e) f h k = absurd h
  bind-panic panic f h k = refl

-- A slice: its elements, and those of the backing array between its length and its capacity.
pub record Slice {ℓ} (A : Type ℓ) : Type ℓ where
  pub items : List A
  pub spare : List A

module _ {ℓ} {A : Type ℓ} where
  abbrev pub len : Slice A → ℕ
  len s = length s.items

  abbrev pub cap : Slice A → ℕ
  cap s = length s.items + length s.spare

  -- `s[lo:hi]`: the bounds are checked against the capacity, not the length.
  abbrev pub slice : {E : Type ℓ} → Slice A → ℕ → ℕ → Outcome E (List A)
  slice s lo hi =
      if leb lo hi && leb hi (cap s)
      then ok (take (hi - lo) (drop lo (s.items ++ s.spare)))
      else panic
