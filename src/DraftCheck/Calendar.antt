-- ===== src/DraftCheck/Calendar.antt =====
-- packages/facturx/src/generate/check-draft.ts: which dates `isRealDate` accepts.
use validateur_facturx.Common.{
  ℕ, zero, suc, ◌+◌, ◌-◌, ◌/◌, ◌%◌, ◌≤◌, ◌≡◌, ◌↔◌, refl, sym, arith, true, false, ◌==◌, ltb, leb,
  le→leb, ==_refl, if◌then◌else◌, Bool-cases, inl, inr,
}
use validateur_facturx.Common.Text.{Text}
use validateur_facturx.DraftCheck.Dates.{
  CivilDate, days_in_month, roll, from_day, from_month, date_utc, same_date, is_iso_date,
  is_real_date, year_of, month_of, day_of,
}

-- A day of the calendar.
abbrev pub IsCivil : ℕ → ℕ → ℕ → Type 0
IsCivil year month day = (1 ≤ month) × (month ≤ 12) × (1 ≤ day) × (day ≤ days_in_month year month)

days_in_month-bounds :
    (year month : ℕ) → (28 ≤ days_in_month year month) × (days_in_month year month ≤ 31)
days_in_month-bounds year month = ground arith

-- A day of the calendar, in the given year or later.
abbrev IsAfter : ℕ → CivilDate → Type 0
IsAfter year d = (year ≤ d.year) × IsCivil d.year d.month d.day

roll-IsAfter :
    (fuel year month day : ℕ)
    → 1 ≤ month
    → month ≤ 12
    → 1 ≤ day
    → day ≤ fuel
    → IsAfter year (roll fuel year month day)
unfolding roll
roll-IsAfter zero year month day h1 h2 h3 h4 = absurd (omega arith)
roll-IsAfter (suc fuel) year month day h1 h2 h3 h4 =
    let (low, high) = days_in_month-bounds year month in
    elim (Bool-cases (leb day (days_in_month year month))) [
      | inl e ↦ rw e (omega arith, (h1, h2, h3, ground (arith, e)))
      | inr e ↦ elim (Bool-cases (month == 12)) [
        | inl m ↦
            let (later, civil) =
              roll-IsAfter fuel (year + 1) 1 (day - days_in_month year month) (omega arith)
                (omega arith) (ground (arith, e)) (omega arith) in
            rw (e, m) (omega arith, civil)
        | inr m ↦
            let (later, civil) =
              roll-IsAfter fuel year (month + 1) (day - days_in_month year month) (omega arith)
                (ground (arith, m)) (ground (arith, e)) (omega arith) in
            rw (e, m) (later, civil)
      ]
    ]

from_day-IsAfter :
    (year month day : ℕ) → 1 ≤ month → month ≤ 12 → IsAfter (year - 1) (from_day year month day)
unfolding from_day
from_day-IsAfter year month (suc day) h1 h2 =
    let (later, civil) =
      roll-IsAfter (suc day) year month (suc day) h1 h2 (omega arith) (omega arith) in
    (omega arith, civil)
from_day-IsAfter year month zero h1 h2 = elim (Bool-cases (month == 1)) [
  | inl e ↦ rw e (omega arith, ground arith)
  | inr e ↦
      let (low, high) = days_in_month-bounds year (month - 1) in
      rw e (omega arith, ground (arith, e, low, high))
]

date_utc-IsAfter :
    (year month day : ℕ)
    → IsAfter ((if ltb year 100 then 1900 + year else year) - 2) (date_utc year month day)
unfolding date_utc from_month
date_utc-IsAfter year zero day =
    let y = if ltb year 100 then 1900 + year else year in
    let (later, civil) = from_day-IsAfter (y - 1) 12 day (omega arith) (omega arith) in
    (omega arith, civil)
date_utc-IsAfter year (suc month) day =
    let y = if ltb year 100 then 1900 + year else year in
    let (later, civil) =
      from_day-IsAfter (y + month / 12) (month % 12 + 1) day (omega arith) (omega arith) in
    (omega arith, civil)

-- A day of the calendar comes back as it is.
date_utc-civil :
    (year month day : ℕ)
    → 100 ≤ year
    → IsCivil year month day
    → date_utc year month day ≡ record { year = year; month = month; day = day }
unfolding date_utc from_month from_day roll
date_utc-civil year month zero late (h1, h2, h3, h4) = absurd (omega arith)
date_utc-civil year zero day late (h1, h2, h3, h4) = absurd (omega arith)
date_utc-civil year (suc month) (suc day) late (h1, h2, h3, h4) =
    let e : ltb year 100 ≡ false = ground arith in
    let m : month % 12 + 1 ≡ suc month = omega arith in
    let y : year + month / 12 ≡ year = omega arith in
    let d : leb (suc day) (days_in_month year (suc month)) ≡ true = le→leb _ _ h4 in
    rw (e, m, y, d) refl

after_same :
    (base year month day : ℕ) (d : CivilDate)
    → IsAfter base d
    → same_date d year month day ≡ true
    → (base ≤ year) × IsCivil year month day
after_same base year month day d (later, civil) same =
    let y : d.year ≡ year = ground (arith, same) in
    let m : d.month ≡ month = ground (arith, same) in
    let n : d.day ≡ day = ground (arith, same) in (omega arith, rw (sym y, sym m, sym n) civil)

-- `isRealDate` accepts a text exactly when it has the form AAAA-MM-JJ and names a day of the Gregorian
-- calendar of the year 100 or later: a month from 1 to 12, and a day that this month of this year has.
pub is_real_date_iff :
    (s : Text)
    → (is_real_date s ≡ true)
      ↔ (is_iso_date s ≡ true) × (100 ≤ year_of s) × IsCivil (year_of s) (month_of s) (day_of s)
unfolding is_real_date
is_real_date_iff s = (
  (λ h.
      let iso : is_iso_date s ≡ true = ground (arith, h) in
      let same : same_date (date_utc (year_of s) (month_of s) (day_of s)) (year_of s) (month_of s)
            (day_of s)
          ≡ true =
        ground (arith, h) in
      let (later, civil) =
        after_same _ (year_of s) (month_of s) (day_of s)
          (date_utc (year_of s) (month_of s) (day_of s))
          (date_utc-IsAfter (year_of s) (month_of s) (day_of s)) same in
      (iso, ground (arith, later), civil)),
  λ (iso, late, civil).
      let same = date_utc-civil (year_of s) (month_of s) (day_of s) late civil in
      rw (iso, same, ==_refl (year_of s), ==_refl (month_of s), ==_refl (day_of s)) refl,
)
