-- ===== src/Billing/Discount.antt =====
-- Coupons: `recurringDiscount` of backend/internal/modules/billing/service.go, and `couponDiscount`,
-- `planEligible` and `recurringWithCoupon` of backend/internal/modules/orders/pricing.go.
use whcms.Base.{
  ℕ, ◌+◌, ◌*◌, ◌/◌, ◌≤◌, ◌<◌, ◌≡◌, refl, sym, ap, ◌∙◌, Bool, true, false, not, ◌||◌, ◌&&◌, Option,
  none, some, List, [], ◌∷◌, ◌==◌, if◌then◌else◌, arith, any, is_empty, inl, inr, Bool-cases,
}
use whcms.Base.Int.{ℤ, pos, ltb_ℤ, leb_ℤ, ◌≤ℤ◌}
use whcms.Base.Word.{two63, add64, sub64, mul64, div64, add64-pos, sub64-pos, mul64-pos, div64-pos}
use native.Mathlib.Nat.{mul-le-mul_left}
use whcms.Domain.Calendar.{Time, after}
use whcms.Domain.Enums.{CouponType}
use whcms.Store.Tables.{Coupon}

abbrev at_most : ℤ → ℤ → ℤ
at_most limit x = if ltb_ℤ limit x then limit else x

abbrev not_negative : ℤ → ℤ
not_negative x = if ltb_ℤ x (pos 0) then pos 0 else x

abbrev raw_discount : CouponType → ℤ → ℤ → ℤ
raw_discount CouponType.percentage value amount = div64 (mul64 amount value) (pos 100)
raw_discount CouponType.fixed value amount = value

abbrev is_expired : Option Time → Time → Bool
is_expired none now = false
is_expired (some t) now = after now t

abbrev applicable : Coupon → Time → Bool
applicable c now = c.active && c.recurring && not (is_expired c.expires_at now)

-- The lookup of the coupon: `none` where it is missing or the lookup fails.
unfoldable pub recurring_discount : Option Coupon → Time → ℤ → ℤ
recurring_discount none now amount = pos 0
recurring_discount (some c) now amount =
    if leb_ℤ amount (pos 0) || not (applicable c now)
    then pos 0
    else not_negative (at_most amount (raw_discount c.type c.value amount))

-- An item of an order as far as pricing goes; a domain has no product.
pub record ItemPlan : Type 0 where
  pub product : Option ℕ
  pub unit : ℤ

abbrev has_id : List ℕ → ℕ → Bool
has_id ids id = any (λ k. k == id) ids

abbrev pub plan_eligible : Coupon → ItemPlan → Bool
plan_eligible c p =
    is_empty c.product_ids || elim p.product [ none ↦ false | some id ↦ has_id c.product_ids id ]

unfoldable pub eligible_base : Coupon → List ItemPlan → ℤ → ℤ
eligible_base c [] base = base
eligible_base c (p ∷ rest) base =
    let next = if plan_eligible c p then add64 base p.unit else base in eligible_base c rest next

unfoldable pub half_up_percent : ℤ → ℤ → ℤ
half_up_percent amount value = div64 (add64 (mul64 amount value) (pos 50)) (pos 100)

unfoldable pub discount_of : CouponType → ℤ → ℤ → ℤ
discount_of CouponType.percentage value base = half_up_percent base value
discount_of CouponType.fixed value base = if ltb_ℤ base value then base else value

unfoldable pub coupon_discount : Coupon → List ItemPlan → ℤ
unfolding discount_of
coupon_discount c plans =
    let base = eligible_base c plans (pos 0) in
    if leb_ℤ base (pos 0) then pos 0 else discount_of c.type c.value base

unfoldable pub recurring_with_coupon : Coupon → ℤ → ℤ
recurring_with_coupon c unit = elim c.type [
  | CouponType.percentage ↦ sub64 unit (half_up_percent unit c.value)
  | CouponType.fixed ↦ if leb_ℤ unit c.value then pos 0 else sub64 unit c.value
]

-- A renewal's discount is never negative and never more than the amount that it discounts, for any
-- coupon whatever its value, wrap-around of the percentage's product included.
pub recurring_discount_bounds :
    (c : Option Coupon) (now : Time) (amount : ℤ)
    → pos 0 ≤ℤ amount
    → (pos 0 ≤ℤ recurring_discount c now amount) × (recurring_discount c now amount ≤ℤ amount)
unfolding recurring_discount
recurring_discount_bounds none now amount h = (ground arith, h)
recurring_discount_bounds (some c) now amount h =
    elim (Bool-cases (leb_ℤ amount (pos 0) || not (applicable c now))) [
      | inl e ↦ rw e (ground arith, h)
      | inr e ↦ rw e (ground arith, ground arith)
    ]

half_up_percent-pos :
    (a v : ℕ)
    → a < 9_000_000_000_000_000
    → v ≤ 100
    → half_up_percent (pos a) (pos v) ≡ pos ((a * v + 50) / 100)
unfolding half_up_percent
half_up_percent-pos a v h k =
    let small : a * v ≤ a * 100 = mul-le-mul_left a k in
    rw
      (
        mul64-pos a v (omega arith),
        add64-pos (a * v) 50 (omega arith),
        div64-pos (a * v + 50) 100 (omega arith),
      )
      refl

discount_of_bounds :
    (type : CouponType) (base value : ℕ)
    → base < 9_000_000_000_000_000
    → (type ≡ CouponType.percentage → value ≤ 100)
    → (pos 0 ≤ℤ discount_of type (pos value) (pos base))
      × (discount_of type (pos value) (pos base) ≤ℤ pos base)
unfolding discount_of
discount_of_bounds CouponType.percentage base value h k =
    let small : base * value ≤ base * 100 = mul-le-mul_left base (k refl) in
    rw (half_up_percent-pos base value h (k refl)) (omega arith, omega arith)
discount_of_bounds CouponType.fixed base value h k = (ground arith, ground arith)

-- An order's coupon takes off between nothing and the whole of the eligible base, for a percentage up
-- to 100 or a fixed amount that is not negative, and for a base up to nine quadrillion rupiah.
pub coupon_discount_bounds :
    (c : Coupon) (plans : List ItemPlan) (base value : ℕ)
    → eligible_base c plans (pos 0) ≡ pos base
    → base < 9_000_000_000_000_000
    → c.value ≡ pos value
    → (c.type ≡ CouponType.percentage → value ≤ 100)
    → (pos 0 ≤ℤ coupon_discount c plans) × (coupon_discount c plans ≤ℤ pos base)
unfolding coupon_discount
coupon_discount_bounds c plans base value e h ev k =
    rw (e, ev)
      (elim (Bool-cases (leb_ℤ (pos base) (pos 0))) [
        | inl z ↦ rw z (ground arith, ground arith)
        | inr z ↦ rw z (discount_of_bounds c.type base value h k)
      ])

sub64_self : (n : ℕ) → n < two63 → sub64 (pos n) (pos n) ≡ pos 0
sub64_self n h = sub64-pos n n (omega arith) h ∙ ap pos (omega arith)

off_once :
    (type : CouponType) (value : ℤ) (n : ℕ)
    → n < two63
    → elim type [
      | CouponType.percentage ↦ sub64 (pos n) (half_up_percent (pos n) value)
      | CouponType.fixed ↦ if leb_ℤ (pos n) value then pos 0 else sub64 (pos n) value
    ]
      ≡ sub64 (pos n) (discount_of type value (pos n))
unfolding discount_of
off_once CouponType.percentage value n h = refl
off_once CouponType.fixed value n h = elim (Bool-cases (leb_ℤ (pos n) value)) [
  | inl e ↦ rw e (sym (ap (sub64 (pos n)) (ground arith) ∙ sub64_self n h))
  | inr e ↦ rw e (ap (sub64 (pos n)) (ground arith))
]

-- A coupon that recurs leaves the price that the first order paid: for a single eligible item with a
-- positive price, the recurring amount is the price less the order's discount.
pub recurring_with_coupon_agrees :
    (c : Coupon) (p : ItemPlan) (price : ℕ)
    → plan_eligible c p ≡ true
    → p.unit ≡ pos price
    → 1 ≤ price
    → price < two63
    → recurring_with_coupon c p.unit ≡ sub64 p.unit (coupon_discount c (p ∷ []))
unfolding recurring_with_coupon coupon_discount eligible_base
recurring_with_coupon_agrees c p price e eu low high =
    let positive : leb_ℤ (pos price) (pos 0) ≡ false = ground arith in
    let whole : add64 (pos 0) (pos price) ≡ pos price =
      add64-pos 0 price (omega arith) ∙ ap pos (omega arith) in
    rw (e, eu, whole, positive) (off_once c.type c.value price high)
