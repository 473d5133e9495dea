-- ===== src/Domain/Prorate.antt =====
-- backend/internal/domain/prorate.go.
use whcms.Base.{ℕ, ◌*◌, ◌≤◌, ◌<◌, ◌≡◌, Option, true, not, ◌==◌, if◌then◌else◌, arith}
use whcms.Base.Int.{ℤ, pos, pos_part, pos-of_nonneg, ◌≤ℤ◌, leb_ℤ}
use whcms.Base.Float.{Float, FloatLaws, two52, two53}
use whcms.Domain.Enums.{BillingCycle}
use whcms.Domain.Calendar.{Time, after, days_between}
use whcms.Domain.Cycle.{cycle_months, add_cycle}
use whcms.Domain.Tax.{round_half_up}

after-days : (to from : Time) → after to from ≡ true → pos 0 ≤ℤ days_between from to
unfolding after days_between
after-days to from h = ground arith

module _ (f : Float) where
  open f use {of_int, mul, div}

  -- The division that is left once both day counts are known.
  unfoldable pub prorated : ℤ → ℤ → ℤ → ℤ
  unfolding round_half_up
  prorated cycle_amount used total =
      round_half_up f (div (mul (of_int cycle_amount) (of_int used)) (of_int total))

  unfoldable pub prorate : ℤ → Option BillingCycle → Time → Time → ℤ
  prorate cycle_amount cycle from to =
      let total_days = days_between from (add_cycle from cycle) in
      let used_days = days_between from to in
      if cycle_months cycle == 0
      then cycle_amount
      else (if not (after to from)
          then pos 0
          else (if leb_ℤ total_days (pos 0)
              then cycle_amount
              else (if leb_ℤ total_days used_days
                  then cycle_amount
                  else prorated cycle_amount used_days total_days)))

  module _ (laws : FloatLaws f) where
    prorated_bounds :
        (a u t : ℕ)
        → u ≤ t
        → 0 < t
        → a < two52
        → a * t < two53
        → (pos 0 ≤ℤ prorated (pos a) (pos u) (pos t)) × (prorated (pos a) (pos u) (pos t) ≤ℤ pos a)
    unfolding prorated round_half_up
    prorated_bounds a u t le p small fits =
        let le' : a * u ≤ a * t = grind arith in
        let e = laws.mul_exact a u (omega arith) in
        let low = laws.div_nonneg (a * u) t in
        let x = div (of_int (pos (a * u))) (of_int (pos t)) in
        rw (e, low)
          (laws.round_nonneg x low, laws.round_le x a small (laws.div_le (a * u) t a p le' small))

    -- A prorated charge is never negative and never more than one full cycle, for an amount below
    -- 2^52 whose product with the days of the cycle is below 2^53.
    pub prorate_bounds :
        (a : ℕ) (cycle : Option BillingCycle) (from to : Time)
        → a < two52
        → a * pos_part (days_between from (add_cycle from cycle)) < two53
        → let r = prorate (pos a) cycle from to in (pos 0 ≤ℤ r) × (r ≤ℤ pos a)
    unfolding prorate
    prorate_bounds a cycle from to small fits =
        let total = days_between from (add_cycle from cycle) in
        let used = days_between from to in
        ground (
          arith,
          after-days to from,
          pos-of_nonneg total,
          pos-of_nonneg used,
          prorated_bounds a (pos_part used) (pos_part total),
        )
