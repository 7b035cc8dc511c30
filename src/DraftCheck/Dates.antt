-- ===== src/DraftCheck/Dates.antt =====
-- packages/facturx/src/generate/check-draft.ts: `isRealDate`, with the `Date.UTC` of the language.
use validateur_facturx.Common.{
  ℕ, zero, suc, ◌+◌, ◌-◌, ◌/◌, ◌%◌, Bool, false, not, [], ◌∷◌, ◌&&◌, ◌||◌, ◌==◌, ltb, leb, all,
  take, drop, if◌then◌else◌,
}
use validateur_facturx.Common.Text.{Text, is_digit}
use validateur_facturx.Money.Digits.{value_from}

abbrev pub is_leap : ℕ → Bool
is_leap year = year % 4 == 0 && (not (year % 100 == 0) || year % 400 == 0)

-- Months are counted from 1.
abbrev pub days_in_month : ℕ → ℕ → ℕ
days_in_month year month =
    if month == 2
    then if is_leap year then 29 else 28
    else if month == 4 || (month == 6 || (month == 9 || month == 11))
    then 30
    else 31

pub record CivilDate : Type 0 where
  pub year : ℕ
  pub month : ℕ
  pub day : ℕ

-- A day past the end of its month counts on into the next ones; the fuel is the day.
unfoldable pub roll : ℕ → ℕ → ℕ → ℕ → CivilDate
roll zero year month day = record { year = year; month = month; day = day }
roll (suc fuel) year month day =
    let next =
      roll fuel (if month == 12 then year + 1 else year) (if month == 12 then 1 else month + 1)
        (day - days_in_month year month) in
    if leb day (days_in_month year month)
    then record { year = year; month = month; day = day }
    else next

-- Day 0 is the last day of the month before.
unfoldable pub from_day : ℕ → ℕ → ℕ → CivilDate
unfolding roll
from_day year month zero =
    if month == 1
    then record { year = year - 1; month = 12; day = 31 }
    else record { year = year; month = month - 1; day = days_in_month year (month - 1) }
from_day year month (suc day) = roll (suc day) year month (suc day)

-- Month 0 is the December before; months past 12 count on into the next years.
unfoldable pub from_month : ℕ → ℕ → ℕ → CivilDate
unfolding from_day
from_month year zero day = from_day (year - 1) 12 day
from_month year (suc month) day = from_day (year + month / 12) (month % 12 + 1) day

-- `new Date(Date.UTC(year, month - 1, day))`, read by its three getters; the years below 100 are
-- those of the twentieth century.
unfoldable pub date_utc : ℕ → ℕ → ℕ → CivilDate
unfolding from_month
date_utc year month day = from_month (if ltb year 100 then 1900 + year else year) month day

-- `^\d{4}-\d{2}-\d{2}$`
unfoldable pub is_iso_date : Text → Bool
is_iso_date (a ∷ b ∷ c ∷ d ∷ e ∷ f ∷ g ∷ h ∷ i ∷ j ∷ []) =
    all is_digit (a ∷ b ∷ c ∷ d ∷ [])
    && (e == b'-' && (all is_digit (f ∷ g ∷ []) && (h == b'-' && all is_digit (i ∷ j ∷ []))))
is_iso_date _ = false

-- `value.split('-').map(Number)`, for a text of that form
abbrev pub year_of : Text → ℕ
year_of s = value_from 0 (take 4 s)

abbrev pub month_of : Text → ℕ
month_of s = value_from 0 (take 2 (drop 5 s))

abbrev pub day_of : Text → ℕ
day_of s = value_from 0 (take 2 (drop 8 s))

abbrev pub same_date : CivilDate → ℕ → ℕ → ℕ → Bool
same_date d year month day = d.year == year && (d.month == month && d.day == day)

unfoldable pub is_real_date : Text → Bool
is_real_date s =
    is_iso_date s
    && same_date (date_utc (year_of s) (month_of s) (day_of s)) (year_of s) (month_of s) (day_of s)
