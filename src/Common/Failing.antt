-- ===== src/Common/Failing.antt =====
-- Functions that may throw: what they return, and how a chain of them stops at the first throw.
use mathlib.Core.Path.{◌≡◌, refl}

-- The value returned, or the exception thrown.
pub data Result {ℓ κ} (X : Type ℓ) (V : Type κ) : Type (ℓ ⊔ κ) where
  ok : V → Result X V
  err : X → Result X V

module _ {ℓ κ μ} {X : Type ℓ} {V : Type κ} {W : Type μ} where
  infixl 5 ◌>>=◌
  abbrev pub ◌>>=◌ : Result X V → (V → Result X W) → Result X W
  attempt >>= next = elim attempt [ err x ↦ err x | ok v ↦ next v ]

  -- A chain that returns has not thrown at its first step.
  pub >>=_returned :
      (attempt : Result X V) (next : V → Result X W) {w : W}
      → (attempt >>= next) ≡ ok w
      → (v : V) × (attempt ≡ ok v) × (next v ≡ ok w)
  >>=_returned (err x) next eq = cc
  >>=_returned (ok v) next eq = (v, refl, eq)
