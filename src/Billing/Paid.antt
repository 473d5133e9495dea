-- ===== src/Billing/Paid.antt =====
-- `ProcessPaid` of backend/internal/modules/billing/service.go. It runs inside the payment's
-- transaction. The receipt and the PDF job are best effort and change no table; they are left out.
use whcms.Base.{ℕ, Bool, true, not, none, some, List, [], ◌∷◌, ◌==◌, if◌then◌else◌, any, same}
use whcms.Base.Action.{Action, Code, ◌>>=◌, ◌>>◌, pure, raise_if}
use whcms.Domain.Enums.{InvoiceStatus, RelatedType, InvoiceStatus-discrete}
use whcms.Store.Tables.{Db, Invoice, InvoiceItem}
use whcms.Store.Invoices.{get_invoice, get_items}
use whcms.Store.Credit.{add_credit}

-- The ports of the other modules (backend/internal/ports) that a paid invoice is dispatched to, and
-- the query for an order item's order.
pub record Handlers : Type 0 where
  pub order_id_for_order_item : ℕ → Action Db ℕ
  pub activate_order : ℕ → Action Db (Unit {0})
  pub renew_service : ℕ → Action Db (Unit {0})
  pub apply_upgrade : ℕ → Action Db (Unit {0})
  pub renew_domain_after_payment : ℕ → Action Db (Unit {0})
  pub activate_snipe_after_payment : ℕ → Action Db (Unit {0})

abbrev pub mem_ℕ : ℕ → List ℕ → Bool
mem_ℕ n = any (λ k. n == k)

abbrev pub related_id_of : InvoiceItem → ℕ
related_id_of it = elim it.related_id [ none ↦ 0 | some id ↦ id ]

module _ (h : Handlers) where
  open h use {
    order_id_for_order_item, activate_order, renew_service, apply_upgrade,
    renew_domain_after_payment, activate_snipe_after_payment,
  }

  unfoldable pub activate_once : ℕ → List ℕ → Action Db (List ℕ)
  activate_once order_id activated =
      if mem_ℕ order_id activated
      then pure activated
      else activate_order order_id >> pure (order_id ∷ activated)

  -- A call on a reference, unless there is none.
  unfoldable pub call_on : ℕ → List ℕ → (ℕ → Action Db (Unit {0})) → Action Db (List ℕ)
  call_on related activated call =
      if related == 0 then pure activated else call related >> pure activated

  -- One round of the loop: the orders activated so far come back.
  unfoldable pub dispatch_item : Invoice → InvoiceItem → RelatedType → List ℕ → Action Db (List ℕ)
  dispatch_item inv it RelatedType.order_item activated =
      if related_id_of it == 0
      then pure activated
      else order_id_for_order_item (related_id_of it) >>= λ order_id.
          activate_once order_id activated
  dispatch_item inv it RelatedType.service_renewal activated =
      call_on (related_id_of it) activated renew_service
  dispatch_item inv it RelatedType.service_upgrade activated =
      call_on (related_id_of it) activated apply_upgrade
  dispatch_item inv it RelatedType.domain_renewal activated =
      call_on (related_id_of it) activated renew_domain_after_payment
  dispatch_item inv it RelatedType.domain_snipe activated =
      call_on (related_id_of it) activated activate_snipe_after_payment
  dispatch_item inv it RelatedType.deposit activated =
      add_credit true inv.client_id it.amount inv.id >> pure activated
  dispatch_item inv it RelatedType.late_fee activated = pure activated
  dispatch_item inv it RelatedType.manual activated = pure activated

  unfoldable pub dispatch_items : Invoice → List InvoiceItem → List ℕ → Action Db (Unit {0})
  dispatch_items inv [] activated = pure tt
  dispatch_items inv (it ∷ rest) activated =
      dispatch_item inv it it.related_type activated >>= λ done. dispatch_items inv rest done

  unfoldable pub process_paid : ℕ → Action Db (Unit {0})
  process_paid invoice_id = do
    inv ← get_invoice invoice_id
    raise_if (not (same InvoiceStatus-discrete inv.status InvoiceStatus.paid)) Code.conflict
    items ← get_items invoice_id
    dispatch_items inv items []
