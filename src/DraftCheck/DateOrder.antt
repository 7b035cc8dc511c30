-- ===== src/DraftCheck/DateOrder.antt =====
-- packages/facturx/src/generate/check-draft.ts: comparing two dates as texts compares the days.
use validateur_facturx.Common.{
  ℕ, ◌+◌, ◌-◌, ◌*◌, ◌≤◌, ◌<◌, ◌≡◌, refl, sym, arith, true, false, [], ◌∷◌, ◌⊎◌, ◌==◌, All, ltb,
  if◌then◌else◌, Bool-cases, inl, inr,
}
use validateur_facturx.Common.Text.{Text, text_lt}
use validateur_facturx.Money.Digits.{IsDigit}
use validateur_facturx.DraftCheck.Dates.{is_iso_date, year_of, month_of, day_of}

-- The number of a text of digits and dashes, the dashes left out.
abbrev number_from : ℕ → Text → ℕ
number_from n [] = n
number_from n (c ∷ s) = if c == b'-' then number_from n s else number_from (n * 10 + (c - b'0')) s

-- Digits and dashes stand at the same places.
abbrev HaveOneShape : Text → Text → Type 0
HaveOneShape [] [] = Unit
HaveOneShape (c ∷ s) (d ∷ t) =
    (((c ≡ b'-') × (d ≡ b'-')) ⊎ (IsDigit c × IsDigit d)) × HaveOneShape s t
HaveOneShape [] (d ∷ t) = ⊥
HaveOneShape (c ∷ s) [] = ⊥

not_dash : (c : ℕ) → IsDigit c → (c == b'-') ≡ false
not_dash c h = ground arith

number-lt : (n m : ℕ) (s t : Text) → HaveOneShape s t → n < m → number_from n t < number_from m s
number-lt n m [] [] h l = l
number-lt n m (c ∷ s) (d ∷ t) (inl (p, q), h) l = rw (p, q) (number-lt n m s t h l)
number-lt n m (c ∷ s) (d ∷ t) (inr (p, q), h) l =
    rw (not_dash c p, not_dash d q)
      (number-lt (n * 10 + (d - b'0')) (m * 10 + (c - b'0')) s t h (ground (arith, p, q)))
number-lt n m [] (d ∷ t) h l = absurd h
number-lt n m (c ∷ s) [] h l = absurd h

number-le :
    (n : ℕ) (s t : Text)
    → HaveOneShape s t
    → text_lt s t ≡ false
    → number_from n t ≤ number_from n s
number-le n [] [] h l = omega arith
number-le n (c ∷ s) (d ∷ t) (inl (p, q), h) l = rw (p, q) (number-le n s t h (ground arith))
number-le n (c ∷ s) (d ∷ t) (inr (p, q), h) l = elim (Bool-cases (ltb c d)) [
  | inl less ↦ absurd (ground arith)
  | inr not_less ↦ elim (Bool-cases (ltb d c)) [
    | inl more ↦
        let lt =
          number-lt (n * 10 + (d - b'0')) (n * 10 + (c - b'0')) s t h (ground (arith, p, q)) in
        rw (not_dash c p, not_dash d q) (omega arith)
    | inr not_more ↦
        let same : c ≡ d = ground arith in
        let rest = number-le (n * 10 + (c - b'0')) s t h (ground arith) in
        rw (not_dash c p, not_dash d q, sym same) rest
  ]
]
number-le n [] (d ∷ t) h l = absurd h
number-le n (c ∷ s) [] h l = absurd h

-- A date of the form AAAA-MM-JJ.
pub record IsDashed (s : Text) : Type 0 where
  pub a : ℕ
  pub b : ℕ
  pub c : ℕ
  pub d : ℕ
  pub f : ℕ
  pub g : ℕ
  pub i : ℕ
  pub j : ℕ
  pub digits : All IsDigit (a ∷ b ∷ c ∷ d ∷ f ∷ g ∷ i ∷ j ∷ [])
  pub same : s ≡ a ∷ b ∷ c ∷ d ∷ b'-' ∷ f ∷ g ∷ b'-' ∷ i ∷ j ∷ []

pub iso-IsDashed : (s : Text) → is_iso_date s ≡ true → IsDashed s
unfolding is_iso_date
iso-IsDashed (a ∷ b ∷ c ∷ d ∷ e ∷ f ∷ g ∷ h ∷ i ∷ j ∷ []) iso =
    let ee : e ≡ b'-' = ground arith in
    let eh : h ≡ b'-' = ground arith in
    record {
      a = a;
      b = b;
      c = c;
      d = d;
      f = f;
      g = g;
      i = i;
      j = j;
      digits = (
        ground arith,
        (
          ground arith,
          (
            ground arith,
            (ground arith, (ground arith, (ground arith, (ground arith, (ground arith, tt))))),
          ),
        ),
      );
      same = rw (ee, eh) refl;
    }
iso-IsDashed _ iso = cc

-- The day of a date as one number, of which a later day has a greater one.
abbrev pub day_number : Text → ℕ
day_number s = (year_of s * 100 + month_of s) * 100 + day_of s

number-day :
    (a b c d f g i j : ℕ)
    → All IsDigit (a ∷ b ∷ c ∷ d ∷ f ∷ g ∷ i ∷ j ∷ [])
    → let s = a ∷ b ∷ c ∷ d ∷ b'-' ∷ f ∷ g ∷ b'-' ∷ i ∷ j ∷ [] in number_from 0 s ≡ day_number s
number-day a b c d f g i j (da, (db, (dc, (dd, (df, (dg, (di, (dj, u)))))))) =
    rw
      (
        not_dash a da,
        not_dash b db,
        not_dash c dc,
        not_dash d dd,
        not_dash f df,
        not_dash g dg,
        not_dash i di,
        not_dash j dj,
      )
      (omega arith)

dashed-number : (s : Text) → IsDashed s → number_from 0 s ≡ day_number s
dashed-number s r = rw r.same (number-day r.a r.b r.c r.d r.f r.g r.i r.j r.digits)

dashed-HaveOneShape : (s t : Text) → IsDashed s → IsDashed t → HaveOneShape s t
dashed-HaveOneShape s t q r =
    let (qa, (qb, (qc, (qd, (qf, (qg, (qi, (qj, u)))))))) = q.digits in
    let (ra, (rb, (rc, (rd, (rf, (rg, (ri, (rj, v)))))))) = r.digits in
    rw (q.same, r.same)
      (
        inr (qa, ra),
        (
          inr (qb, rb),
          (
            inr (qc, rc),
            (
              inr (qd, rd),
              (
                inl (refl, refl),
                (
                  inr (qf, rf),
                  (inr (qg, rg), (inl (refl, refl), (inr (qi, ri), (inr (qj, rj), tt)))),
                ),
              ),
            ),
          ),
        ),
      )

-- A date that is not before another one as a text is not before it as a day.
pub not_before :
    (s t : Text)
    → is_iso_date s ≡ true
    → is_iso_date t ≡ true
    → text_lt s t ≡ false
    → day_number t ≤ day_number s
not_before s t p q h =
    let ds = iso-IsDashed s p in
    let dt = iso-IsDashed t q in
    let le = number-le 0 s t (dashed-HaveOneShape s t ds dt) h in
    rw (sym (dashed-number s ds), sym (dashed-number t dt)) le
