-- ===== src/Domain/Cycle.antt =====
-- backend/internal/domain/cycle.go: billing cycles and the month arithmetic that clamps to the last
-- day of the target month.
use whcms.Base.{
  ℕ, ◌+◌, ◌-◌, ◌*◌, ◌/◌, ◌%◌, ◌≤◌, ◌<◌, Option, none, some, ltb, ◌==◌, if◌then◌else◌, ◌≡◌, ◌≢◌,
  refl, arith, min,
}
use native.Mathlib.Decide.{dec_lt}
use whcms.Domain.Enums.{BillingCycle}
use whcms.Domain.Calendar.{Time, days_in, IsDate, days_in_bounds}

-- `none` is a string that is no known cycle.
unfoldable pub cycle_months : Option BillingCycle → ℕ
cycle_months none = 0
cycle_months (some BillingCycle.monthly) = 1
cycle_months (some BillingCycle.quarterly) = 3
cycle_months (some BillingCycle.semiannually) = 6
cycle_months (some BillingCycle.annually) = 12
cycle_months (some BillingCycle.biennially) = 24
cycle_months (some BillingCycle.one_time) = 0

clamp_day : ℕ → ℕ → ℕ
clamp_day d last = if ltb last d then last else d

clamp_day_lem : (d last : ℕ) → clamp_day d last ≡ min d last
unfolding clamp_day
clamp_day_lem d last = ground arith

-- `time.Date(y, m+months, 1, ...)` carries whole years out of the month; then the day is clamped to
-- the target month's length, and the clock is kept.
unfoldable pub add_months_clamped : Time → ℕ → Time
unfolding clamp_day
add_months_clamped t months =
    let index = t.month - 1 + months in
    let year = t.year + index / 12 in
    let month = index % 12 + 1 in
    let last = days_in year month in
    record { year = year; month = month; day = clamp_day t.day last; clock = t.clock }

unfoldable pub add_cycle : Time → Option BillingCycle → Time
unfolding cycle_months add_months_clamped
add_cycle date c = if cycle_months c == 0 then date else add_months_clamped date (cycle_months c)

-- Months counted from year 0.
abbrev pub month_index : Time → ℕ
month_index t = t.year * 12 + (t.month - 1)

-- Adding months lands exactly that many months later, on a date that exists, on the same day of the
-- month or on the last one, with the clock unchanged.
pub add_months_clamped_lem :
    (t : Time) (months : ℕ)
    → IsDate t
    → let r = add_months_clamped t months in
      (month_index r ≡ month_index t + months)
      × IsDate r
      × (r.day ≡ min t.day (days_in r.year r.month))
      × (r.clock ≡ t.clock)
unfolding add_months_clamped
add_months_clamped_lem t months h =
    let index = t.month - 1 + months in
    let b = days_in_bounds (t.year + index / 12) (index % 12 + 1) in
    let d = clamp_day_lem t.day (days_in (t.year + index / 12) (index % 12 + 1)) in
    (
      omega arith,
      record {
        month_from_1 = omega arith;
        month_to_12 = omega arith;
        day_from_1 = omega (arith, b, d);
        day_in_month = omega (arith, d);
      },
      d,
      refl,
    )

-- Later months first, then days: the order of dates.
abbrev pub date_key : Time → ℕ
date_key t = month_index t * 32 + t.day

recurring_months : (c : BillingCycle) → c ≢ BillingCycle.one_time → 0 < cycle_months (some c)
unfolding cycle_months
recurring_months BillingCycle.one_time n = absurd (n refl)
recurring_months _ n = omega arith

later_key :
    (t : Time) (months : ℕ)
    → IsDate t
    → 0 < months
    → date_key t < date_key (add_months_clamped t months)
later_key t months h pos =
    let (index, valid, _, _) = add_months_clamped_lem t months h in
    let r = add_months_clamped t months in
    omega (arith, index, valid.day_from_1, h.day_in_month, (days_in_bounds t.year t.month).1)

-- Every recurring cycle moves a date strictly forward.
pub add_cycle_later :
    (t : Time) (c : BillingCycle)
    → IsDate t
    → c ≢ BillingCycle.one_time
    → date_key t < date_key (add_cycle t (some c))
unfolding add_cycle
add_cycle_later t c h n =
    let p = recurring_months c n in ground (arith, p, later_key t (cycle_months (some c)) h p)

-- Dates of one month go to one month.
one_target :
    (s t : Time) (months : ℕ)
    → s.year ≡ t.year
    → s.month ≡ t.month
    → let a = add_months_clamped s months in
      let b = add_months_clamped t months in
      (month_index a ≡ month_index b) × (days_in a.year a.month ≡ days_in b.year b.month)
unfolding add_months_clamped
one_target s t months y m = (cc, cc)

-- Renewals keep their order: of two dates the later one is never renewed to an earlier date.
pub add_months_mono :
    (s t : Time) (months : ℕ)
    → IsDate s
    → IsDate t
    → date_key s ≤ date_key t
    → date_key (add_months_clamped s months) ≤ date_key (add_months_clamped t months)
add_months_mono s t months hs ht le = elim (dec_lt (month_index s) (month_index t)) [
  | yes lt ↦ omega (
    arith,
    (add_months_clamped_lem s months hs).0,
    (add_months_clamped_lem t months ht).0,
    (add_months_clamped_lem s months hs).1.day_in_month,
    (days_in_bounds (add_months_clamped s months).year (add_months_clamped s months).month).1,
  )
  | no ge ↦
      let a = add_months_clamped_lem s months hs in
      let b = add_months_clamped_lem t months ht in
      let last = (days_in_bounds t.year t.month).1 in
      omega (arith, one_target s t months (omega (arith, last)) (omega (arith, last)), a.2, b.2)
]
