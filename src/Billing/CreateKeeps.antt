-- ===== src/Billing/CreateKeeps.antt =====
-- `CreateInvoice` of backend/internal/modules/billing/service.go writes through the counter and the
-- new rows alone.
use whcms.Base.{ℕ, Bool, true, Option, none, some, List, [], ◌∷◌}
use whcms.Base.Int.{ℤ}
use whcms.Base.Float.{Float}
use whcms.Base.Keeps.{Keeps, keeps_rules, then-Keeps, pure-Keeps, raise_if-Keeps, if-Keeps}
use whcms.Domain.Calendar.{Time}
use whcms.Store.Tables.{Db, Invoice, InvoiceItem}
use whcms.Base.Text.{Text}
use whcms.Base.Each.{count_each-Keeps}
use whcms.Domain.Enums.{RelatedType}
use whcms.Store.Tables.{Service, Domain}
use whcms.Store.Invoices.{has_open_renewal_invoice}
use whcms.Store.Services.{get_service, get_domain, list_services_due, list_domains_due}
use whcms.Billing.Renewals.{
  invoice_once, renew_service_due, renew_domain_due, service_renewal_in_tx, domain_renewal_in_tx,
  generate_service_renewal_invoice, generate_domain_renewal_invoice, generate_renewal_invoices,
}
use whcms.Billing.Create.{
  Settings, CreateInvoiceItem, CreateInvoiceInput, sum_items, store_invoice, create_invoice,
}

module _ {μ} {P : Db → Type μ} where
  pub sum_items-Keeps : (items : List CreateInvoiceItem) (a b : ℤ) → Keeps P (sum_items items a b)
  unfolding sum_items
  sum_items-Keeps [] a b = pure-Keeps (a, b)
  sum_items-Keeps (it ∷ rest) a b = then-Keeps _ _ (raise_if-Keeps _ _) (sum_items-Keeps rest _ _)

  pub create_invoice-Keeps :
      (f : Float) (settings : Settings) (now : Time) (in_tx : Bool) (input : CreateInvoiceInput)
      → ((inv : Invoice) (items : List InvoiceItem) → Keeps P (store_invoice f now inv items))
      → Keeps P (create_invoice f settings now in_tx input)
  unfolding create_invoice
  create_invoice-Keeps f settings now in_tx input h =
      search (keeps_rules, sum_items-Keeps, h) depth 20

module _ {μ} {P : Db → Type μ} (f : Float) (settings : Settings) (now : Time) where
  module _
      (h : (inv : Invoice) (items : List InvoiceItem)
        → Keeps P (store_invoice f now inv items)) where
    invoice_once-Keeps :
        (client_id : ℕ) (type : RelatedType) (id : ℕ) (amount discount : ℤ) (due : Time)
        → Keeps P (invoice_once f settings now client_id type id amount discount due)
    unfolding invoice_once has_open_renewal_invoice
    invoice_once-Keeps client_id type id amount discount due =
        let made = λ (i : CreateInvoiceInput). create_invoice-Keeps f settings now true i h in
        search (keeps_rules, if-Keeps, made)

    renew_domain_due-Keeps :
        (d : Domain) (due : Option Time) → Keeps P (renew_domain_due f settings now d due)
    unfolding renew_domain_due
    renew_domain_due-Keeps d none = pure-Keeps _
    renew_domain_due-Keeps d (some due) = invoice_once-Keeps _ _ _ _ _ _

  module _ (decode : Text → Option Bool)
      (h : (inv : Invoice) (items : List InvoiceItem)
        → Keeps P (store_invoice f now inv items)) where
    renew_service_due-Keeps :
        (svc : Service) (due : Option Time)
        → Keeps P (renew_service_due f settings now decode svc due)
    unfolding renew_service_due
    renew_service_due-Keeps svc none = pure-Keeps _
    renew_service_due-Keeps svc (some due) = search (keeps_rules, if-Keeps, invoice_once-Keeps h)

    pub service_renewal_in_tx-Keeps :
        (id : ℕ) → Keeps P (service_renewal_in_tx f settings now decode id)
    unfolding service_renewal_in_tx get_service
    service_renewal_in_tx-Keeps id = search (keeps_rules, renew_service_due-Keeps)

    domain_renewal_in_tx-Keeps : (id : ℕ) → Keeps P (domain_renewal_in_tx f settings now id)
    unfolding domain_renewal_in_tx get_domain
    domain_renewal_in_tx-Keeps id = let h2 = renew_domain_due-Keeps h in search (keeps_rules, h2)

    -- A run of the job keeps whatever the counter and the new rows keep.
    pub generate_renewal_invoices-Keeps :
        (lead : ℕ) → Keeps P (generate_renewal_invoices f settings now decode lead)
    unfolding generate_renewal_invoices generate_service_renewal_invoice
        generate_domain_renewal_invoice list_services_due list_domains_due
    generate_renewal_invoices-Keeps lead =
        search
          (keeps_rules, count_each-Keeps, service_renewal_in_tx-Keeps, domain_renewal_in_tx-Keeps)
          depth 20
