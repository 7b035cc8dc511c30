-- ===== src/Common/Finding.antt =====
-- What `Array.prototype.find` and the `findFirst` of the database return.
use mathlib.Core.Path.{◌≡◌, refl, sym, ap, ◌∙◌}
use mathlib.Core.Logic.{◌⊎◌, inl, inr}
use mathlib.Core.Bool.{Bool, true, false}
use mathlib.Core.Option.{Option, none, some}
use mathlib.Core.List.{List, [], ◌∷◌, ◌++◌}
use validateur_facturx.Common.Tests.{if◌then◌else◌, Bool-cases}
use validateur_facturx.Common.Lists.{All, find}

module _ {ℓ} {A : Type ℓ} (p : A → Bool) where
  -- The first element is the one found, or the search goes on behind it.
  find-cases :
      (x : A) (xs : List A) (a : A)
      → find p (x ∷ xs) ≡ some a
      → ((p x ≡ true) × (x ≡ a)) ⊎ ((p x ≡ false) × (find p xs ≡ some a))
  find-cases x xs a h = elim (Bool-cases (p x)) [
    | inl e ↦
        let found = sym (ap (λ t. if t then some x else find p xs) e) ∙ h in
        inl (e, some-injective x a found)
    | inr e ↦ inr (e, sym (ap (λ t. if t then some x else find p xs) e) ∙ h)
  ]
    where
      some-injective : (x a : A) → ◌≡◌ {A = Option A} (some x) (some a) → x ≡ a
      some-injective x a h = cc

  pub find-append_found : (xs ys : List A) (a : A) → find p xs ≡ some a → find p (xs ++ ys) ≡ some a
  find-append_found [] ys a h = cc
  find-append_found (x ∷ xs) ys a h = elim (find-cases x xs a h) [
    | inl (e, same) ↦ rw e (ap some same)
    | inr (e, rest) ↦ rw e (find-append_found xs ys a rest)
  ]

  pub find-append_missing : (xs ys : List A) → find p xs ≡ none → find p (xs ++ ys) ≡ find p ys
  find-append_missing [] ys h = refl
  find-append_missing (x ∷ xs) ys h = elim (Bool-cases (p x)) [
    | inl e ↦
        let bad : ◌≡◌ {A = Option A} (some x) none =
          sym (ap (λ t. if t then some x else find p xs) e) ∙ h in
        cc
    | inr e ↦
        rw e (find-append_missing xs ys (sym (ap (λ t. if t then some x else find p xs) e) ∙ h))
  ]

  -- What is found passes the test,
  pub find_passes : (xs : List A) (a : A) → find p xs ≡ some a → p a ≡ true
  find_passes [] a h = cc
  find_passes (x ∷ xs) a h = elim (find-cases x xs a h) [
    | inl (e, same) ↦ ap p (sym same) ∙ e
    | inr (e, rest) ↦ find_passes xs a rest
  ]

module _ {ℓ κ} {A : Type ℓ} (P : A → Type κ) where
  -- and has what every element has.
  pub All-find : (p : A → Bool) (xs : List A) (a : A) → All P xs → find p xs ≡ some a → P a
  All-find p [] a u h = cc
  All-find p (x ∷ xs) a (q, qs) h = elim (find-cases p x xs a h) [
    | inl (e, same) ↦ rw (sym same) q
    | inr (e, rest) ↦ All-find p xs a qs rest
  ]
