-- ===== src/Snipe/Price.antt =====
-- `price`, `refundSplit` and `invoiceItems` of backend/internal/modules/snipe/client.go. The registration
-- price of the domains module and the plan's fees are inputs; the checks on the name, the plan and the
-- years come before.
use whcms.Base.{ℕ, true, ◌&&◌, ◌||◌, List, [], ◌∷◌, ◌++◌, if◌then◌else◌}
use whcms.Base.Int.{ℤ, pos, ltb_ℤ, leb_ℤ}
use whcms.Base.Word.{add64, sub64, mul64, div64}
use whcms.Base.Float.{Float}
use whcms.Domain.Enums.{RelatedType}
use whcms.Domain.Tax.{calc_tax}
use whcms.Billing.Create.{CreateInvoiceItem, Settings}

pub record Priced : Type 0 where
  pub fee : ℤ
  pub quote_total : ℤ
  pub success_fee : ℤ

abbrev domain_part : Priced → ℤ
domain_part p = add64 p.quote_total p.success_fee

unfoldable pub priced_subtotal : Priced → ℤ
priced_subtotal p = add64 p.fee (domain_part p)

pub record PricedTotal : Type 0 where
  pub tax : ℤ
  pub total : ℤ

module _ (f : Float) where
  -- Every line of a hunt is taxed.
  unfoldable pub priced_total : Settings → ℤ → PricedTotal
  priced_total settings subtotal =
      let tax = (calc_tax f subtotal (f.of_int settings.tax_rate) settings.tax_inclusive).tax in
      if settings.tax_enabled && ltb_ℤ (pos 0) settings.tax_rate
      then record {
        tax = tax;
        total = if settings.tax_inclusive then subtotal else add64 subtotal tax;
      }
      else record { tax = pos 0; total = subtotal }

-- The refundable part of the total, and the part that is the service fee's.
unfoldable pub refund_split : ℤ → ℤ → ℤ → ℤ × ℤ
refund_split total fee subtotal =
    if leb_ℤ subtotal (pos 0) || leb_ℤ fee (pos 0)
    then (total, pos 0)
    else (sub64 total (div64 (mul64 total fee) subtotal), div64 (mul64 total fee) subtotal)

abbrev pub line : ℤ → RelatedType → ℕ → CreateInvoiceItem
line amount type id = record { amount = amount; taxed = true; related_type = type; related_id = id }

-- A line for an amount above zero, or none.
unfoldable pub line_if_positive : ℤ → List CreateInvoiceItem
line_if_positive amount = if ltb_ℤ (pos 0) amount then line amount RelatedType.manual 0 ∷ [] else []

unfoldable pub invoice_items : ℕ → Priced → List CreateInvoiceItem
invoice_items snipe_id p =
    line_if_positive p.fee
    ++ (line p.quote_total RelatedType.domain_snipe snipe_id ∷ line_if_positive p.success_fee)
