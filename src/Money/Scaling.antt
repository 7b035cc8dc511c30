-- ===== src/Money/Scaling.antt =====
-- packages/facturx/src/money.ts: powers of ten, and `rescale` to a scale that is not smaller.
use Prim.Native.Nat.add
use validateur_facturx.Common.{
  Bool-cases, inl, inr, ◌==◌, ltb, true, sym, ℕ, zero, suc, ◌+◌, ◌-◌, ◌*◌, ◌≤◌, ◌<◌, ◌≡◌, refl, ap₂,
  arith,
}
use validateur_facturx.Common.Int.{ℤ, pos, ◌*ℤ◌, *ℤ_pos_pos, *ℤ_one}
use validateur_facturx.Money.{Decimal, decimal, pow10, rescale}

pub pow10_pos : (n : ℕ) → 0 < pow10 n
unfolding pow10
pow10_pos zero = omega arith
pow10_pos (suc n) = omega (arith, pow10_pos n)

pub pow10-add : (m n : ℕ) → pow10 (m + n) ≡ pow10 m * pow10 n
unfolding pow10
pow10-add zero n = rw add.zero (omega arith)
pow10-add (suc m) n = rw add.suc (omega (arith, pow10-add m n))

-- The amount counted in units of the scale `s`, which is at least the amount's own scale.
abbrev pub units : Decimal → ℕ → ℤ
units d s = d.value *ℤ pos (pow10 (s - d.scale))

pub decimal-eq : {v w : ℤ} {m n : ℕ} → v ≡ w → m ≡ n → decimal v m ≡ decimal w n
decimal-eq p q = ap₂ decimal p q

pub units_self : (d : Decimal) (s : ℕ) → s - d.scale ≡ 0 → units d s ≡ d.value
unfolding pow10
units_self d s h = rw h (*ℤ_one d.value)

pub rescale_up : (d : Decimal) (s : ℕ) → d.scale ≤ s → rescale d s ≡ decimal (units d s) s
unfolding rescale
rescale_up d s h = elim (Bool-cases (d.scale == s)) [
  | inl same ↦
      let e : d.scale ≡ s = ground arith in
      rw same (decimal-eq (sym (units_self d s (omega arith))) e)
  | inr other ↦ let lt : ltb d.scale s ≡ true = ground arith in rw (other, lt) refl
]

-- Rescaling upwards in two steps or in one is the same.
pub units_step :
    (d : Decimal) (s t : ℕ) → d.scale ≤ s → s ≤ t → units d s *ℤ pos (pow10 (t - s)) ≡ units d t
units_step d s t h k =
    let e : t - d.scale ≡ s - d.scale + (t - s) = omega arith in rw (*ℤ_pos_pos, e, pow10-add) refl

pub rescale_scale : (d : Decimal) (s : ℕ) → (rescale d s).scale ≡ s
unfolding rescale
rescale_scale d s = ground arith

-- An amount that has the scale already is left as it is.
pub rescale_self : (d : Decimal) (s : ℕ) → d.scale ≡ s → rescale d s ≡ d
unfolding rescale
rescale_self d s h = ground arith
