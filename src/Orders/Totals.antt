-- ===== src/Orders/Totals.antt =====
-- The totals of an order (backend/internal/modules/orders/service.go) and of its invoice
-- (backend/internal/modules/billing/service.go), which computes them anew.
use whcms.Base.{ℕ, ◌-◌, ◌≤◌, ◌<◌, ◌≡◌, refl, sym, ap, ◌∙◌, true, not, arith, inl, inr, Bool-cases}
use whcms.Base.Int.{pos, ltb_ℤ, eqb_ℤ}
use whcms.Base.Word.{two63, add64, sub64, add64-zero, sub64-pos, sub64-Int64}
use whcms.Base.Float.{Float}
use whcms.Domain.Tax.{calc_tax}
use whcms.Billing.Create.{Settings, invoice_totals, clamp_to, at_least_zero}
use whcms.Orders.Create.{order_totals}

-- Where the float that an order takes for the tax rate is the integer that billing takes, the order's
-- tax and total are those that billing computes for a subtotal that is taxed as a whole and a discount
-- within it, however the float rounds, if it tells a rate above 0 from one that is not.
pub order_totals_as_invoiced :
    (f : Float) (settings : Settings) (n d : ℕ)
    → n < two63
    → d ≤ n
    → f.leq (f.of_int settings.tax_rate) (f.of_int (pos 0)) ≡ not (ltb_ℤ (pos 0) settings.tax_rate)
    → let t = invoice_totals f settings (pos n) (pos n) (pos d) in
      let o = order_totals f (f.of_int settings.tax_rate) settings (pos n) (pos d) in
      (t.discount ≡ pos d) × (t.tax_total ≡ o.0) × (t.total ≡ o.1)
unfolding invoice_totals order_totals calc_tax
order_totals_as_invoiced f settings n d h part compares =
    let kept : clamp_to (pos n) (pos d) ≡ pos d = ground arith in
    let net : sub64 (pos n) (pos d) ≡ pos (n - d) = sub64-pos n d part h in
    let base : at_least_zero (pos (n - d)) ≡ pos (n - d) = ground arith in
    let whole : add64 (pos (n - d)) (pos 0) ≡ pos (n - d) =
      ap (λ x. add64 x (pos 0)) (sym net)
      ∙ add64-zero (sub64 (pos n) (pos d)) (sub64-Int64 (pos n) (pos d))
      ∙ net in
    rw (kept, net, base, compares)
      (elim (Bool-cases settings.tax_enabled) [
        | inr off ↦ rw off (refl, refl, refl)
        | inl on ↦ elim (Bool-cases (ltb_ℤ (pos 0) settings.tax_rate)) [
          | inr free ↦ elim (Bool-cases (ltb_ℤ (pos 0) (pos n))) [
            | inl some_due ↦ rw (on, free, some_due) (refl, refl, refl)
            | inr nothing ↦ rw (on, free, nothing) (refl, refl, refl)
          ]
          | inl rated ↦ elim (Bool-cases (ltb_ℤ (pos 0) (pos n))) [
            | inr nothing ↦
                let zero_base : eqb_ℤ (pos (n - d)) (pos 0) ≡ true = ground arith in
                rw (on, rated, nothing, zero_base) (refl, refl, refl)
            | inl some_due ↦ elim (Bool-cases (eqb_ℤ (pos (n - d)) (pos 0))) [
              | inl zero_base ↦ elim (Bool-cases settings.tax_inclusive) [
                | inl inside ↦ rw (on, rated, some_due, zero_base, inside) (refl, refl, refl)
                | inr on_top ↦ rw (on, rated, some_due, zero_base, on_top) (refl, refl, whole)
              ]
              | inr taxed ↦ elim (Bool-cases settings.tax_inclusive) [
                | inl inside ↦ rw (on, rated, some_due, taxed, inside) (refl, refl, refl)
                | inr on_top ↦ rw (on, rated, some_due, taxed, on_top) (refl, refl, refl)
              ]
            ]
          ]
        ]
      ])
