-- ===== src/Common/Sorting.antt =====
-- A stable sort by a number: `ORDER BY … ASC`, and `sort` with the difference of two dates.
use Prim.Native.Nat.{ℕ, ◌≤◌}
use mathlib.Core.Path.{refl}
use mathlib.Core.Logic.{inl, inr}
use mathlib.Core.List.{List, [], ◌∷◌, Perm, Permᴰ}
use mathlib.Core.List.Permᴰ
use native.Mathlib.Omega.{arith}
use validateur_facturx.Common.Tests.{leb, leb→le, Bool-cases, if◌then◌else◌}
use validateur_facturx.Common.Lists.{All}

module _ {ℓ} {A : Type ℓ} (key : A → ℕ) where
  unfoldable pub insert_by : A → List A → List A
  insert_by a [] = a ∷ []
  insert_by a (b ∷ bs) = if leb (key a) (key b) then a ∷ b ∷ bs else b ∷ insert_by a bs

  unfoldable pub sort_by : List A → List A
  unfolding insert_by
  sort_by [] = []
  sort_by (a ∷ xs) = insert_by a (sort_by xs)

  -- Every element comes no later than those after it.
  unfoldable pub IsSorted : List A → Type 0
  IsSorted [] = Unit
  IsSorted (a ∷ xs) = All (λ b. key a ≤ key b) xs × IsSorted xs

  module _ {κ} (P : A → Type κ) where
    insert_by-All : (a : A) (xs : List A) → P a → All P xs → All P (insert_by a xs)
    unfolding insert_by
    insert_by-All a [] p h = (p, tt)
    insert_by-All a (b ∷ bs) p (q, qs) = elim (Bool-cases (leb (key a) (key b))) [
      | inl e ↦ rw e (p, (q, qs))
      | inr e ↦ rw e (q, insert_by-All a bs p qs)
    ]

    pub sort_by-All : (xs : List A) → All P xs → All P (sort_by xs)
    unfolding sort_by
    sort_by-All [] h = tt
    sort_by-All (a ∷ xs) (p, h) = insert_by-All a (sort_by xs) p (sort_by-All xs h)

  All-lower : (m n : ℕ) (xs : List A) → m ≤ n → All (λ b. n ≤ key b) xs → All (λ b. m ≤ key b) xs
  All-lower m n [] h p = tt
  All-lower m n (a ∷ xs) h (p, ps) = (omega arith, All-lower m n xs h ps)

  insert_by-IsSorted : (a : A) (xs : List A) → IsSorted xs → IsSorted (insert_by a xs)
  unfolding insert_by IsSorted
  insert_by-IsSorted a [] h = (tt, tt)
  insert_by-IsSorted a (b ∷ bs) (p, ps) = elim (Bool-cases (leb (key a) (key b))) [
    | inl e ↦
        let le = leb→le (key a) (key b) e in rw e ((le, All-lower (key a) (key b) bs le p), (p, ps))
    | inr e ↦
        rw e (insert_by-All (λ c. key b ≤ key c) a bs (ground arith) p, insert_by-IsSorted a bs ps)
  ]

  pub sort_by-IsSorted : (xs : List A) → IsSorted (sort_by xs)
  unfolding sort_by IsSorted
  sort_by-IsSorted [] = tt
  sort_by-IsSorted (a ∷ xs) = insert_by-IsSorted a (sort_by xs) (sort_by-IsSorted xs)

  insert_by-permᴰ : (a : A) (xs : List A) → Permᴰ (a ∷ xs) (insert_by a xs)
  unfolding insert_by
  insert_by-permᴰ a [] = Permᴰ.cons refl Permᴰ.nil
  insert_by-permᴰ a (b ∷ bs) = elim (Bool-cases (leb (key a) (key b))) [
    | inl e ↦ rw e (Permᴰ.refl (a ∷ b ∷ bs))
    | inr e ↦ rw e (Permᴰ.trans (Permᴰ.swap refl refl) (Permᴰ.cons refl (insert_by-permᴰ a bs)))
  ]

  sort_by-permᴰ : (xs : List A) → Permᴰ xs (sort_by xs)
  unfolding sort_by
  sort_by-permᴰ [] = Permᴰ.nil
  sort_by-permᴰ (a ∷ xs) =
      Permᴰ.trans (Permᴰ.cons refl (sort_by-permᴰ xs)) (insert_by-permᴰ a (sort_by xs))

  pub sort_by-perm : (xs : List A) → Perm xs (sort_by xs)
  sort_by-perm xs = ∣ sort_by-permᴰ xs ∣₁
