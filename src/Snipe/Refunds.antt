-- ===== src/Snipe/Refunds.antt =====
-- `refundSplit` of backend/internal/modules/snipe/client.go and `refundFor` of its service.go.
use native.Mathlib.Nat.{mul-le-mul_left, div-le_of_le-mul}
use whcms.Base.{
  ℕ, ◌+◌, ◌-◌, ◌*◌, ◌/◌, ◌≤◌, ◌<◌, ◌≡◌, ◌≢◌, refl, Bool, true, false, ◌||◌, if◌then◌else◌, same,
  Bool-cases, inl, inr, arith,
}
use whcms.Base.Int.{ℤ, pos, leb_ℤ, ◌≤ℤ◌}
use whcms.Base.Word.{two63, add64, add64-pos, sub64-pos, mul64-pos, div64-pos}
use whcms.Domain.Enums.{SnipeStatus, SnipeStatus-discrete}
use whcms.Store.Tables.{DomainSnipe}
use whcms.Snipe.Price.{refund_split}

-- The switch on the final status.
unfoldable pub refund_on : DomainSnipe → SnipeStatus → Bool → ℤ
refund_on s SnipeStatus.expired refund_fee = s.refundable_domain
refund_on s SnipeStatus.cancelled refund_fee =
    if refund_fee then add64 s.refundable_domain s.refundable_fee else s.refundable_domain
refund_on s SnipeStatus.failed refund_fee = add64 s.refundable_domain s.refundable_fee
refund_on s _ refund_fee = pos 0

unfoldable pub refund_for : DomainSnipe → SnipeStatus → Bool → ℤ
refund_for s to refund_fee =
    if same SnipeStatus-discrete s.status SnipeStatus.active
    then refund_on s to refund_fee
    else pos 0

-- How a total is split: two parts that are not negative and add up to it.
abbrev pub Splits : ℕ → ℤ × ℤ → Type 0
Splits total (domain, fee) = (d : ℕ) × (r : ℕ) × (domain ≡ pos d) × (fee ≡ pos r) × (d + r ≡ total)

-- The refundable part and the fee's part of an invoice are never negative and make up its total, for a
-- fee that is part of the subtotal and a product of total and fee that an int64 holds.
pub refund_split-Splits :
    (total fee subtotal : ℕ)
    → fee ≤ subtotal
    → total * fee < two63
    → total < two63
    → Splits total (refund_split (pos total) (pos fee) (pos subtotal))
unfolding refund_split
refund_split-Splits total fee subtotal part fits h =
    elim (Bool-cases (leb_ℤ (pos subtotal) (pos 0) || leb_ℤ (pos fee) (pos 0))) [
      | inl e ↦ rw e (total, 0, refl, refl, omega arith)
      | inr e ↦
          let share : total * fee / subtotal ≤ total =
            div-le_of_le-mul subtotal (let m = mul-le-mul_left total part in omega arith) in
          rw (e, mul64-pos total fee fits, div64-pos (total * fee) subtotal (omega arith))
            (rw (sub64-pos total (total * fee / subtotal) share h)
              (total - total * fee / subtotal, total * fee / subtotal, refl, refl, omega arith))
    ]

inactive :
    (s : SnipeStatus)
    → same SnipeStatus-discrete s SnipeStatus.active ≡ false
    → s ≢ SnipeStatus.active
unfolding SnipeStatus-discrete
inactive SnipeStatus.active e a = cc
inactive _ e a = cc

running :
    (s : SnipeStatus)
    → same SnipeStatus-discrete s SnipeStatus.active ≡ true
    → s ≡ SnipeStatus.active
unfolding SnipeStatus-discrete
running SnipeStatus.active e = refl
running _ e = cc

refund_on_bounds :
    (s : DomainSnipe) (to : SnipeStatus) (refund_fee : Bool) (domain fee : ℕ)
    → s.refundable_domain ≡ pos domain
    → s.refundable_fee ≡ pos fee
    → domain + fee < two63
    → let r = refund_on s to refund_fee in
      (pos 0 ≤ℤ r)
      × (r ≤ℤ pos (domain + fee))
      × (to ≡ SnipeStatus.won → r ≡ pos 0)
      × (to ≡ SnipeStatus.failed → r ≡ pos (domain + fee))
unfolding refund_on
refund_on_bounds s SnipeStatus.expired refund_fee domain fee ed ef h =
    rw ed (omega arith, omega arith, λ w. cc, λ w. cc)
refund_on_bounds s SnipeStatus.cancelled true domain fee ed ef h =
    rw (ed, ef, add64-pos domain fee h) (omega arith, omega arith, λ w. cc, λ w. cc)
refund_on_bounds s SnipeStatus.cancelled false domain fee ed ef h =
    rw ed (omega arith, omega arith, λ w. cc, λ w. cc)
refund_on_bounds s SnipeStatus.failed refund_fee domain fee ed ef h =
    rw (ed, ef, add64-pos domain fee h) (omega arith, omega arith, λ w. cc, λ w. refl)
refund_on_bounds s SnipeStatus.won refund_fee domain fee ed ef h =
    (omega arith, omega arith, λ w. refl, λ w. cc)
refund_on_bounds s _ refund_fee domain fee ed ef h = (omega arith, omega arith, λ w. refl, λ w. cc)

-- What comes back when a hunt ends is never negative and never more than what was paid for it: nothing
-- for a hunt that is won or was not active, and everything for one that failed.
pub refund_for_bounds :
    (s : DomainSnipe) (to : SnipeStatus) (refund_fee : Bool) (domain fee : ℕ)
    → s.refundable_domain ≡ pos domain
    → s.refundable_fee ≡ pos fee
    → domain + fee < two63
    → let r = refund_for s to refund_fee in
      (pos 0 ≤ℤ r)
      × (r ≤ℤ pos (domain + fee))
      × (to ≡ SnipeStatus.won → r ≡ pos 0)
      × (s.status ≢ SnipeStatus.active → r ≡ pos 0)
      × (s.status ≡ SnipeStatus.active → to ≡ SnipeStatus.failed → r ≡ pos (domain + fee))
unfolding refund_for
refund_for_bounds s to refund_fee domain fee ed ef h =
    elim (Bool-cases (same SnipeStatus-discrete s.status SnipeStatus.active)) [
      | inl active ↦
          let (low, high, won, failed) = refund_on_bounds s to refund_fee domain fee ed ef h in
          rw active (low, high, won, (λ n. absurd (n (running s.status active))), λ a. failed)
      | inr other ↦ rw other (
        omega arith,
        omega arith,
        (λ w. refl),
        (λ n. refl),
        λ a t. absurd (inactive s.status other a),
      )
    ]
