-- ===== src/Billing/Dispatch.antt =====
-- `ProcessPaid` of backend/internal/modules/billing/service.go, seen from the store: what the handlers
-- keep, it keeps.
use whcms.Base.{ℕ, true, List, [], ◌∷◌, ◌==◌, inl, inr, Bool-cases}
use whcms.Base.Int.{ℤ}
use whcms.Base.Action.{Action}
use whcms.Base.Keeps.{Keeps, pure-Keeps, bind-Keeps, keeps_rules}
use whcms.Domain.Enums.{RelatedType}
use whcms.Store.Tables.{Db, Invoice, InvoiceItem}
use whcms.Store.Credit.{add_credit}
use whcms.Store.Invoices.{get_invoice, get_items}
use whcms.Billing.Paid.{
  Handlers, dispatch_item, dispatch_items, process_paid, activate_once, call_on, mem_ℕ,
  related_id_of,
}

-- Every port keeps a property of the store.
pub record HandlersKeep {μ} (P : Db → Type μ) (h : Handlers) : Type μ where
  pub order_id_for_order_item : (n : ℕ) → Keeps P (h.order_id_for_order_item n)
  pub activate_order : (n : ℕ) → Keeps P (h.activate_order n)
  pub renew_service : (n : ℕ) → Keeps P (h.renew_service n)
  pub apply_upgrade : (n : ℕ) → Keeps P (h.apply_upgrade n)
  pub renew_domain_after_payment : (n : ℕ) → Keeps P (h.renew_domain_after_payment n)
  pub activate_snipe_after_payment : (n : ℕ) → Keeps P (h.activate_snipe_after_payment n)

module _ {μ} {P : Db → Type μ} (h : Handlers) (k : HandlersKeep P h)
    (deposit : (client : ℕ) (amount : ℤ) (invoice : ℕ)
      → Keeps P (add_credit true client amount invoice)) where
  activate_once-Keeps : (o : ℕ) (activated : List ℕ) → Keeps P (activate_once h o activated)
  unfolding activate_once
  activate_once-Keeps o activated = elim (Bool-cases (mem_ℕ o activated)) [
    | inl e ↦ rw e (pure-Keeps activated)
    | inr e ↦ rw e (search (keeps_rules, k.activate_order))
  ]

  call_on-Keeps :
      (n : ℕ) (activated : List ℕ) (call : ℕ → Action Db (Unit {0}))
      → ((n : ℕ) → Keeps P (call n))
      → Keeps P (call_on h n activated call)
  unfolding call_on
  call_on-Keeps n activated call c = elim (Bool-cases (n == 0)) [
    | inl e ↦ rw e (pure-Keeps activated)
    | inr e ↦ rw e (search (keeps_rules, c))
  ]

  dispatch_item-Keeps :
      (inv : Invoice) (it : InvoiceItem) (type : RelatedType) (activated : List ℕ)
      → Keeps P (dispatch_item h inv it type activated)
  unfolding dispatch_item
  dispatch_item-Keeps inv it RelatedType.order_item activated =
      elim (Bool-cases (related_id_of it == 0)) [
        | inl e ↦ rw e (pure-Keeps activated)
        | inr e ↦ rw e (search (keeps_rules, k.order_id_for_order_item, activate_once-Keeps))
      ]
  dispatch_item-Keeps inv it RelatedType.service_renewal activated =
      call_on-Keeps (related_id_of it) activated h.renew_service k.renew_service
  dispatch_item-Keeps inv it RelatedType.service_upgrade activated =
      call_on-Keeps (related_id_of it) activated h.apply_upgrade k.apply_upgrade
  dispatch_item-Keeps inv it RelatedType.domain_renewal activated =
      call_on-Keeps (related_id_of it) activated h.renew_domain_after_payment
        k.renew_domain_after_payment
  dispatch_item-Keeps inv it RelatedType.domain_snipe activated =
      call_on-Keeps (related_id_of it) activated h.activate_snipe_after_payment
        k.activate_snipe_after_payment
  dispatch_item-Keeps inv it RelatedType.deposit activated = search (keeps_rules, deposit)
  dispatch_item-Keeps inv it RelatedType.late_fee activated = pure-Keeps activated
  dispatch_item-Keeps inv it RelatedType.manual activated = pure-Keeps activated

  pub dispatch_items-Keeps :
      (inv : Invoice) (items : List InvoiceItem) (activated : List ℕ)
      → Keeps P (dispatch_items h inv items activated)
  unfolding dispatch_items
  dispatch_items-Keeps inv [] activated = pure-Keeps tt
  dispatch_items-Keeps inv (it ∷ rest) activated =
      bind-Keeps (dispatch_item h inv it it.related_type activated) _
        (dispatch_item-Keeps inv it it.related_type activated)
        (λ done. dispatch_items-Keeps inv rest done)

  -- Dispatching a paid invoice keeps whatever every handler and every deposit keeps.
  pub process_paid-Keeps : (invoice_id : ℕ) → Keeps P (process_paid h invoice_id)
  unfolding process_paid get_invoice get_items
  process_paid-Keeps invoice_id = search (keeps_rules, dispatch_items-Keeps)
