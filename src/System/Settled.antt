-- ===== src/System/Settled.antt =====
-- A payment that is reported again, with the handlers that backend/internal/composition binds.
use whcms.Base.{ℕ, ◌≡◌, Bool, Option, none, some, arith}
use whcms.Base.Int.{ℤ}
use whcms.Base.Action.{Action, ok, modify}
use whcms.Base.Keeps.{Keeps, keeps_rules, pure-Keeps, if-Keeps}
use whcms.Domain.Calendar.{Time}
use whcms.Domain.Enums.{OrderStatus}
use whcms.Store.Tables.{Db, DomainSnipe, SnipeEvent, Service, Domain}
use whcms.Store.Services.{update_service}
use whcms.Store.Credit.{adjust_credit, apply_delta}
use whcms.Store.Snipes.{update_snipe_if, get_snipe, record_refund, activate_snipe, add_event}
use whcms.Store.Orders.{update_order_status, update_item_back_refs, insert_service, insert_domain}
use whcms.Payments.Apply.{ApplyTx, apply_payment}
use whcms.Payments.Idempotence.{IsSettled, apply_payment_again}
use whcms.Snipe.Lifecycle.{give_back, refund_late_payment, activate_snipe_after_payment}
use whcms.System.Handlers.{Surroundings, bound_handlers}
use whcms.System.HandlersKept.{StepsKeep, bound_handlers-HandlersKeep}

module _ (id : ℕ) where
  -- A step that leaves the invoices alone.
  frame-IsSettled :
      {A : Type 0} (m : Action Db A)
      → ((db : Db) → (m db).1.invoices ≡ db.invoices)
      → Keeps (IsSettled id) m
  frame-IsSettled m e = record {
    at = λ db v. record { invoice = v.invoice; found = rw (e db) v.found; settled = v.settled };
  }

  update_snipe_if-IsSettled :
      (n : ℕ) (guard : DomainSnipe → Bool) (change : DomainSnipe → DomainSnipe)
      → Keeps (IsSettled id) (update_snipe_if n guard change)
  unfolding update_snipe_if
  update_snipe_if-IsSettled n guard change =
      frame-IsSettled (update_snipe_if n guard change) (λ db. ground arith)

  get_snipe-IsSettled : (n : ℕ) → Keeps (IsSettled id) (get_snipe n)
  unfolding get_snipe
  get_snipe-IsSettled n = search keeps_rules

  add_event-IsSettled : (e : SnipeEvent) → Keeps (IsSettled id) (add_event e)
  unfolding add_event modify
  add_event-IsSettled e = frame-IsSettled (add_event e) (λ db. ground arith)

  credit-IsSettled :
      (client : ℕ) (delta : ℤ) (invoice : Option ℕ)
      → Keeps (IsSettled id) (adjust_credit client delta invoice)
  unfolding adjust_credit apply_delta
  credit-IsSettled client delta invoice =
      frame-IsSettled (adjust_credit client delta invoice) (λ db. ground arith)

  late_payment-IsSettled :
      (s : DomainSnipe) (invoice : Option ℕ) (now : ℕ)
      → Keeps (IsSettled id) (refund_late_payment s invoice now)
  unfolding refund_late_payment give_back record_refund
  late_payment-IsSettled s none now = pure-Keeps tt
  late_payment-IsSettled s (some i) now =
      search
        (keeps_rules, if-Keeps, update_snipe_if-IsSettled, credit-IsSettled, add_event-IsSettled)
        depth 20

  activation-IsSettled :
      (month now n : ℕ) → Keeps (IsSettled id) (activate_snipe_after_payment month now n)
  unfolding activate_snipe_after_payment activate_snipe
  activation-IsSettled month now n =
      search
        (
          keeps_rules, if-Keeps, update_snipe_if-IsSettled, get_snipe-IsSettled,
          add_event-IsSettled, late_payment-IsSettled,
        )
        depth 20

  update_service-IsSettled : (svc : Service) → Keeps (IsSettled id) (update_service svc)
  unfolding update_service
  update_service-IsSettled svc = frame-IsSettled (update_service svc) (λ db. ground arith)

  update_order_status-IsSettled :
      (n : ℕ) (s : OrderStatus) → Keeps (IsSettled id) (update_order_status n s)
  unfolding update_order_status
  update_order_status-IsSettled n s = frame-IsSettled (update_order_status n s) (λ db. ground arith)

  update_item_back_refs-IsSettled :
      (n : ℕ) (service domain : Option ℕ)
      → Keeps (IsSettled id) (update_item_back_refs n service domain)
  unfolding update_item_back_refs
  update_item_back_refs-IsSettled n service domain =
      frame-IsSettled (update_item_back_refs n service domain) (λ db. ground arith)

  insert_service-IsSettled : (svc : Service) → Keeps (IsSettled id) (insert_service svc)
  unfolding insert_service
  insert_service-IsSettled svc = frame-IsSettled (insert_service svc) (λ db. ground arith)

  insert_domain-IsSettled : (d : Domain) → Keeps (IsSettled id) (insert_domain d)
  unfolding insert_domain
  insert_domain-IsSettled d = frame-IsSettled (insert_domain d) (λ db. ground arith)

  IsSettled-steps : StepsKeep (IsSettled id)
  IsSettled-steps = record {
    update_service-Keeps = λ svc. update_service-IsSettled svc;
    insert_service-Keeps = λ svc. insert_service-IsSettled svc;
    insert_domain-Keeps = λ d. insert_domain-IsSettled d;
    update_order_status-Keeps = λ n s. update_order_status-IsSettled n s;
    update_item_back_refs-Keeps = λ n a b. update_item_back_refs-IsSettled n a b;
    activate_snipe_after_payment-Keeps = λ month now n. activation-IsSettled month now n;
  }

-- After a payment that succeeded, another payment for the invoice succeeds and changes nothing, with
-- the handlers of the other modules as they are: nothing is activated, renewed or credited twice.
pub whole_payment_again :
    (e : Surroundings) (now later : Time) (in_tx again : Bool) (id : ℕ) (tx other : ApplyTx)
    (db : Db)
    → (apply_payment (bound_handlers e) now in_tx id tx db).0 ≡ ok tt
    → let after = (apply_payment (bound_handlers e) now in_tx id tx db).1 in
      apply_payment (bound_handlers e) later again id other after ≡ (ok tt, after)
whole_payment_again e now later in_tx again id tx other db h =
    apply_payment_again (bound_handlers e) now later in_tx again id tx other db
      (bound_handlers-HandlersKeep (IsSettled-steps id) e) h
