-- ===== src/Billing/Created.antt =====
-- `CreateInvoice` of backend/internal/modules/billing/service.go: the rows that it adds.
use whcms.Base.{ℕ, false, suc, ==_refl, ◌≡◌, refl, subst, sym, ◌++◌, some, List, map}
use whcms.Base.Float.{Float}
use whcms.Base.Action.{ok, ◌>>=◌, within_tx}
use whcms.Base.Keeps.{keeps_rules, raise_if-Keeps}
use whcms.Base.Leads.{Arrives, step-Arrives, then-Arrives, rollback-Arrives}
use whcms.Domain.Calendar.{Time}
use whcms.Domain.Numbers.{format_invoice_number, invoice_counter_scope}
use whcms.Store.Tables.{Db, Invoice, InvoiceItem}
use whcms.Store.Invoices.{next_number, insert_invoice}
use whcms.Billing.Create.{Settings, CreateInvoiceInput, item_row, store_invoice, create_invoice}
use whcms.Billing.CreateKeeps.{sum_items-Keeps}

-- The invoice is stored for the client, with these items, and the services and clients are as before.
pub record IsCreated (client : ℕ) (items : List InvoiceItem) (old : Db) (inv : Invoice) (db : Db)
    : Type 0 where
  pub stored : db.invoices inv.id ≡ some inv
  pub for_client : inv.client_id ≡ client
  pub lines :
      db.items ≡ old.items ++ map (λ (it : InvoiceItem). record it { invoice_id = inv.id }) items
  pub services : db.services ≡ old.services

module _ (f : Float) (settings : Settings) (now : Time) (old : Db) where
  stored_row :
      (row : Invoice) (items : List InvoiceItem) (inv : Invoice)
      → (store_invoice f now row items old).0 ≡ ok inv
      → IsCreated row.client_id items old inv (store_invoice f now row items old).1
  unfolding store_invoice next_number insert_invoice ◌>>=◌
  stored_row row items inv e =
      let made = (store_invoice f now row items old).1 in
      let n = suc (old.counters (invoice_counter_scope now)) in
      let drawn : Invoice = record row {
        number = format_invoice_number now n;
        id = old.next_invoice;
      } in
      let same_row : drawn ≡ inv = cc in
      subst (λ x. IsCreated row.client_id items old x made) same_row
        (record {
          stored = rw (==_refl old.next_invoice) refl;
          for_client = refl;
          lines = refl;
          services = refl;
        })

  store_invoice-IsCreated :
      (row : Invoice) (items : List InvoiceItem)
      → Arrives (λ db. db ≡ old) (IsCreated row.client_id items old) (store_invoice f now row items)
  store_invoice-IsCreated row items = record {
    at = λ db inv same_db e.
        subst
          (λ d.
            (store_invoice f now row items d).0 ≡ ok inv
            → IsCreated row.client_id items old inv (store_invoice f now row items d).1)
          (sym same_db) (stored_row row items inv) e;
  }

  pub create_invoice-IsCreated :
      (input : CreateInvoiceInput)
      → Arrives
          (λ db. db ≡ old)
          (IsCreated input.client_id (map (item_row f) input.items) old)
          (create_invoice f settings now false input)
  unfolding create_invoice within_tx
  create_invoice-IsCreated input = then-Arrives _ _ (raise_if-Keeps _ _) (
      then-Arrives _ _ (raise_if-Keeps _ _) (
        then-Arrives _ _ (raise_if-Keeps _ _) (
          step-Arrives _ _ (sum_items-Keeps input.items _ _) λ sums.
            step-Arrives _ _ (search keeps_rules) λ client.
              then-Arrives _ _ (search keeps_rules)
                (rollback-Arrives _ (store_invoice-IsCreated _ (map (item_row f) input.items))))))
