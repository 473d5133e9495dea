-- ===== src/Billing/RenewedOnce.antt =====
-- The dedupe of renewal invoices (backend/internal/modules/billing/service.go): what a created invoice
-- leaves behind, and what the next call finds.
use whcms.Base.{
  subst, ℕ, ◌≡◌, ◌≢◌, refl, ap, ◌∙◌, sym, Bool, true, Option, none, some, List, [], ◌∷◌, ◌++◌, ◌==◌,
  if◌then◌else◌, any, inl, inr, Bool-cases, arith, ◌&&◌, same,
}
use whcms.Base.Text.{Text}
use whcms.Base.Int.{ℤ}
use whcms.Base.Float.{Float}
use whcms.Base.Action.{Result, rollback, ok, ◌>>=◌, within_tx, rollback_ok, bind_ok}
use whcms.Base.Keeps.{Keeps, pure-Keeps}
use whcms.Billing.CreateKeeps.{service_renewal_in_tx-Keeps}
use whcms.Base.Ensures.{
  rollback_inv, Ensures, first-Ensures, last-Ensures, then_last-Ensures, within_tx-Ensures,
}
use whcms.Domain.Enums.{InvoiceStatus, RelatedType, RelatedType-discrete, InvoiceStatus-discrete}
use whcms.Domain.Calendar.{Time}
use whcms.Store.Tables.{Db, Invoice, InvoiceItem, Service}
use whcms.Store.Invoices.{has_open_renewal_invoice, next_number, insert_invoice, is_open, points_at}
use whcms.Store.Services.{get_service, get_service_found}
use whcms.Billing.Create.{Settings, CreateInvoiceItem, store_invoice, create_invoice}
use whcms.Billing.Renewals.{
  Renewal, SkipReason, invoice_once, renew_service_due, service_renewal_in_tx, service_renewable,
  generate_service_renewal_invoice, panel_meta_cancel_at_period_end,
}

-- Some open invoice has a line of this reference.
abbrev pub has_open : RelatedType → ℕ → Db → Bool
has_open type id db =
    any (λ it. points_at type id it && is_open (db.invoices it.invoice_id)) db.items

pub record IsInvoiced (type : RelatedType) (id : ℕ) (db : Db) : Type 0 where
  pub open_invoice : has_open type id db ≡ true

any-snoc {ℓ} :
    {A : Type ℓ} (p : A → Bool) (xs : List A) (x : A) → p x ≡ true → any p (xs ++ (x ∷ [])) ≡ true
any-snoc p [] x h = rw h refl
any-snoc p (y ∷ xs) x h = ground (arith, any-snoc p xs x h)

insert_invoice-IsInvoiced :
    (inv : Invoice) (it : InvoiceItem) (type : RelatedType) (id : ℕ)
    → inv.status ≡ InvoiceStatus.unpaid
    → points_at type id it ≡ true
    → Ensures (IsInvoiced type id) (insert_invoice inv (it ∷ []))
unfolding insert_invoice InvoiceStatus-discrete
insert_invoice-IsInvoiced inv it type id unpaid points = record {
  at = λ db r e. record { open_invoice = any-snoc _ db.items _ (ground (arith, unpaid, points)) };
}

same_RelatedType : (t : RelatedType) → same RelatedType-discrete t t ≡ true
unfolding RelatedType-discrete
same_RelatedType RelatedType.order_item = refl
same_RelatedType _ = refl

reference-points_at :
    (type : RelatedType) (id : ℕ) (amount : ℤ) (taxed : Bool)
    → id ≢ 0
    → points_at type id (record {
      invoice_id = 0;
      amount = amount;
      taxed = taxed;
      related_type = type;
      related_id = if id == 0 then none else some id;
    })
      ≡ true
reference-points_at type id amount taxed h = ground (arith, same_RelatedType type, h)

module _ (f : Float) (settings : Settings) (now : Time) where
  store_invoice-IsInvoiced :
      (inv : Invoice) (it : InvoiceItem) (type : RelatedType) (id : ℕ)
      → inv.status ≡ InvoiceStatus.unpaid
      → points_at type id it ≡ true
      → Ensures (IsInvoiced type id) (store_invoice f now inv (it ∷ []))
  unfolding store_invoice
  store_invoice-IsInvoiced inv it type id unpaid points =
      last-Ensures _ _ λ n. insert_invoice-IsInvoiced _ it type id unpaid points

  -- What `CreateInvoice` leaves behind for the reference of its line.
  create_invoice-IsInvoiced :
      (it : CreateInvoiceItem) (client_id : ℕ) (discount : ℤ) (due : Option Time)
      → it.related_id ≢ 0
      → Ensures (IsInvoiced it.related_type it.related_id) (
          create_invoice f settings now true (record {
            client_id = client_id;
            items = it ∷ [];
            discount = discount;
            due_date = due;
          }))
  unfolding create_invoice RelatedType-discrete
  create_invoice-IsInvoiced it client_id discount due h = then_last-Ensures _ _ (
      then_last-Ensures _ _ (
        then_last-Ensures _ _ (
          last-Ensures _ _ λ sums. last-Ensures _ _ λ client. then_last-Ensures _ _ (
            within_tx-Ensures true _ (
              store_invoice-IsInvoiced _ _ it.related_type it.related_id refl
                (reference-points_at it.related_type it.related_id it.amount it.taxed h))))))

  store_invoice-Services :
      (id : ℕ) (svc : Service) (inv : Invoice) (items : List InvoiceItem)
      → Keeps (λ db. db.services id ≡ some svc) (store_invoice f now inv items)
  unfolding store_invoice next_number insert_invoice ◌>>=◌
  store_invoice-Services id svc inv items = record { at = λ db e. e }

  -- A call that creates an invoice leaves one open.
  invoice_once-IsInvoiced :
      (client_id : ℕ) (type : RelatedType) (id : ℕ) (amount discount : ℤ) (due : Time) (db : Db)
      (inv : Invoice)
      → id ≢ 0
      → (invoice_once f settings now client_id type id amount discount due db).0
        ≡ ok (Renewal.created inv)
      → IsInvoiced type id (invoice_once f settings now client_id type id amount discount due db).1
  unfolding invoice_once has_open_renewal_invoice ◌>>=◌
  invoice_once-IsInvoiced client_id type id amount discount due db inv h =
      elim (Bool-cases (has_open type id db)) [
        | inl e ↦ rw (e, invoice_once) (λ r. record { open_invoice = cc })
        | inr e ↦
            let made =
              create_invoice-IsInvoiced
                (record { amount = amount; taxed = true; related_type = type; related_id = id })
                client_id discount (some due) h in
            rw (e, invoice_once) (λ r. (first-Ensures _ _ made (λ i. pure-Keeps _)).at db _ r)
      ]

  -- While one is open, the call does nothing.
  invoice_once_open :
      (client_id : ℕ) (type : RelatedType) (id : ℕ) (amount discount : ℤ) (due : Time) (db : Db)
      → IsInvoiced type id db
      → invoice_once f settings now client_id type id amount discount due db
        ≡ (ok (Renewal.skipped SkipReason.already_invoiced), db)
  unfolding invoice_once has_open_renewal_invoice ◌>>=◌
  invoice_once_open client_id type id amount discount due db h =
      rw (h.open_invoice, invoice_once) refl

  module _ (decode : Text → Option Bool) where
    renew_service_due-IsInvoiced :
        (svc : Service) (due : Option Time) (db : Db) (inv : Invoice)
        → svc.id ≢ 0
        → (renew_service_due f settings now decode svc due db).0 ≡ ok (Renewal.created inv)
        → IsInvoiced RelatedType.service_renewal svc.id
            (renew_service_due f settings now decode svc due db).1
    unfolding renew_service_due ◌>>=◌
    renew_service_due-IsInvoiced svc none db inv h = λ r. record { open_invoice = cc }
    renew_service_due-IsInvoiced svc (some due) db inv h =
        elim (Bool-cases (panel_meta_cancel_at_period_end decode svc.panel_meta)) [
          | inl e ↦ rw (e, renew_service_due) (λ r. record { open_invoice = cc })
          | inr e ↦
              rw (e, renew_service_due) (λ r. invoice_once-IsInvoiced _ _ _ _ _ due db inv h r)
        ]

    -- The call that created an invoice found the service renewable, and finds it so again.
    renew_service_due_open :
        (svc : Service) (due : Option Time) (db s : Db) (inv : Invoice)
        → (renew_service_due f settings now decode svc due db).0 ≡ ok (Renewal.created inv)
        → IsInvoiced RelatedType.service_renewal svc.id s
        → renew_service_due f settings now decode svc due s
          ≡ (ok (Renewal.skipped SkipReason.already_invoiced), s)
    unfolding renew_service_due ◌>>=◌
    renew_service_due_open svc none db s inv = λ r v. cc
    renew_service_due_open svc (some due) db s inv =
        elim (Bool-cases (panel_meta_cancel_at_period_end decode svc.panel_meta)) [
          | inl e ↦ rw (e, renew_service_due) (λ r v. cc)
          | inr e ↦ rw (e, renew_service_due) (λ r v. invoice_once_open _ _ _ _ _ due s v)
        ]

    pub service_renewal_in_tx_found :
        (svc : Service) (db : Db)
        → db.services svc.id ≡ some svc
        → service_renewal_in_tx f settings now decode svc.id db
          ≡ renew_service_due f settings now decode svc
              (service_renewable svc.status svc.next_due_date svc.recurring_amount)
              db
    unfolding service_renewal_in_tx
    service_renewal_in_tx_found svc db found =
        bind_ok (get_service svc.id) _ db svc db (get_service_found svc.id db svc found)

    -- After a call that created a renewal invoice the same call is skipped as already invoiced, and
    -- changes nothing, for a service whose row stands under its id and whose id is not 0.
    pub generate_service_renewal_invoice_again :
        (svc : Service) (db : Db) (inv : Invoice)
        → svc.id ≢ 0
        → db.services svc.id ≡ some svc
        → let once = generate_service_renewal_invoice f settings now decode svc.id db in
          once.0 ≡ ok (Renewal.created inv)
          → generate_service_renewal_invoice f settings now decode svc.id once.1
            ≡ (ok (Renewal.skipped SkipReason.already_invoiced), once.1)
    unfolding generate_service_renewal_invoice within_tx
    generate_service_renewal_invoice_again svc db inv h found r =
        let m = service_renewal_in_tx f settings now decode svc.id in
        let once = (rollback m db).1 in
        let due = service_renewable svc.status svc.next_due_date svc.recurring_amount in
        let ran = sym (service_renewal_in_tx_found svc db found) ∙ rollback_inv m db _ r in
        let said = ap (λ (p : Result Renewal × Db). p.0) ran in
        let kept =
          subst (λ (p : Result Renewal × Db). p.1.services svc.id ≡ some svc)
            (rollback_inv m db _ r)
            ((service_renewal_in_tx-Keeps f settings now decode (store_invoice-Services svc.id svc)
                svc.id).at
              db found) in
        let open_now =
          subst (λ (p : Result Renewal × Db). IsInvoiced RelatedType.service_renewal svc.id p.1) ran
            (renew_service_due-IsInvoiced svc due db inv h said) in
        rollback_ok m once _ once (
          service_renewal_in_tx_found svc once kept
          ∙ renew_service_due_open svc due db once inv said open_now)
