-- ===== src/Billing/Renewals.antt =====
-- Renewal invoices: `generateServiceRenewalInvoice`, `generateDomainRenewalInvoice` and
-- `GenerateRenewalInvoices` of backend/internal/modules/billing/service.go. The mails are left out.
use whcms.Base.{
  ℕ, ◌+◌, Bool, true, false, ◌&&◌, Option, none, some, List, [], ◌∷◌, ◌==◌, if◌then◌else◌, is_empty,
  same, ◌++◌,
}
use whcms.Base.Text.{Text}
use whcms.Base.Int.{ℤ, pos, ltb_ℤ}
use whcms.Base.Float.{Float}
use whcms.Base.Action.{Action, Code, ◌>>=◌, pure, gets, within_tx}
use whcms.Base.Each.{count_each}
use whcms.Domain.Enums.{
  RelatedType, ServiceStatus, DomainStatus, ServiceStatus-discrete, DomainStatus-discrete,
}
use whcms.Domain.Calendar.{Time, day_number}
use whcms.Store.Tables.{Db, Invoice, Coupon, Service, Domain}
use whcms.Store.Services.{get_service, get_domain, list_services_due, list_domains_due}
use whcms.Store.Invoices.{has_open_renewal_invoice}
use whcms.Billing.Create.{Settings, CreateInvoiceInput, create_invoice}
use whcms.Billing.Discount.{recurring_discount}

pub data SkipReason : Type 0 where
  already_invoiced not_eligible cancel_at_period_end : SkipReason

-- The invoice, or the reason for which there is none.
pub data Renewal : Type 0 where
  created : Invoice → Renewal
  skipped : SkipReason → Renewal

abbrev is_created : Renewal → Bool
is_created (Renewal.created inv) = true
is_created (Renewal.skipped r) = false

abbrev pub service_renewable : ServiceStatus → Option Time → ℤ → Option Time
service_renewable status none amount = none
service_renewable status (some due) amount =
    if same ServiceStatus-discrete status ServiceStatus.active && ltb_ℤ (pos 0) amount
    then some due
    else none

abbrev pub domain_renewable : DomainStatus → Option Time → ℤ → Option Time
domain_renewable status none amount = none
domain_renewable status (some due) amount =
    if same DomainStatus-discrete status DomainStatus.active && ltb_ℤ (pos 0) amount
    then some due
    else none

abbrev coupon_of : Option ℕ → Db → Option Coupon
coupon_of none db = none
coupon_of (some id) db = if id == 0 then none else db.coupons id

abbrev renewal_input : ℕ → RelatedType → ℕ → ℤ → ℤ → Time → CreateInvoiceInput
renewal_input client_id type id amount discount due = record {
  client_id = client_id;
  items = record { amount = amount; taxed = true; related_type = type; related_id = id } ∷ [];
  discount = discount;
  due_date = some due;
}

-- `decode` is the JSON decoder on the flag of a service's panel_meta: `none` where it fails.
unfoldable pub panel_meta_cancel_at_period_end : (Text → Option Bool) → Text → Bool
panel_meta_cancel_at_period_end decode raw =
    if is_empty raw then false else elim (decode raw) [ none ↦ false | some flag ↦ flag ]

module _ (f : Float) (settings : Settings) (now : Time) where
  -- The invoice of one reference, unless one is open.
  unfoldable pub invoice_once : ℕ → RelatedType → ℕ → ℤ → ℤ → Time → Action Db Renewal
  invoice_once client_id type id amount discount due = do
    exists ← has_open_renewal_invoice type id
    if exists
        then pure (Renewal.skipped SkipReason.already_invoiced)
        else create_invoice f settings now true
            (renewal_input client_id type id amount discount due)
          >>= λ inv. pure (Renewal.created inv)

  unfoldable pub renew_domain_due : Domain → Option Time → Action Db Renewal
  renew_domain_due d none = pure (Renewal.skipped SkipReason.not_eligible)
  renew_domain_due d (some due) =
      invoice_once d.client_id RelatedType.domain_renewal d.id d.recurring_amount (pos 0) due

  unfoldable pub domain_renewal_in_tx : ℕ → Action Db Renewal
  domain_renewal_in_tx id = get_domain id >>= λ d.
      renew_domain_due d (domain_renewable d.status d.next_due_date d.recurring_amount)

  unfoldable pub generate_domain_renewal_invoice : ℕ → Action Db Renewal
  generate_domain_renewal_invoice id = within_tx false (λ _. domain_renewal_in_tx id)

  abbrev count_domain : Domain → Action Db Bool
  count_domain d = generate_domain_renewal_invoice d.id >>= λ r. pure (is_created r)

module _ (f : Float) (settings : Settings) (now : Time) (decode : Text → Option Bool) where
  unfoldable pub renew_service_due : Service → Option Time → Action Db Renewal
  renew_service_due svc none = pure (Renewal.skipped SkipReason.not_eligible)
  renew_service_due svc (some due) =
      if panel_meta_cancel_at_period_end decode svc.panel_meta
      then pure (Renewal.skipped SkipReason.cancel_at_period_end)
      else gets (λ db. recurring_discount (coupon_of svc.coupon_id db) now svc.recurring_amount)
        >>= λ discount.
            invoice_once f settings now svc.client_id RelatedType.service_renewal svc.id
              svc.recurring_amount discount due

  unfoldable pub service_renewal_in_tx : ℕ → Action Db Renewal
  service_renewal_in_tx id = get_service id >>= λ svc.
      renew_service_due svc (service_renewable svc.status svc.next_due_date svc.recurring_amount)

  unfoldable pub generate_service_renewal_invoice : ℕ → Action Db Renewal
  generate_service_renewal_invoice id = within_tx false (λ _. service_renewal_in_tx id)

  abbrev count_service : Service → Action Db Bool
  count_service svc = generate_service_renewal_invoice svc.id >>= λ r. pure (is_created r)

  -- `lead` is billing.renewal_lead_days; the number of invoices comes back, with the joined errors.
  unfoldable pub generate_renewal_invoices : ℕ → Action Db (ℕ × List Code)
  generate_renewal_invoices lead = do
    services ← list_services_due (day_number now + lead)
    of_services ← count_each count_service services
    domains ← list_domains_due (day_number now + lead)
    of_domains ← count_each (count_domain f settings now) domains
    pure (of_services.0 + of_domains.0, of_services.1 ++ of_domains.1)
