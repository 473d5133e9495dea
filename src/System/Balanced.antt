-- ===== src/System/Balanced.antt =====
-- Payments with the handlers that backend/internal/composition binds.
use whcms.Base.{ℕ, Bool, Option, arith}
use whcms.Base.Keeps.{Keeps}
use whcms.Domain.Calendar.{Time}
use whcms.Domain.Enums.{OrderStatus}
use whcms.Store.Tables.{Service, Domain}
use whcms.Store.Ledger.{IsBalanced, frame-Keeps}
use whcms.Store.Services.{update_service}
use whcms.Store.Orders.{update_order_status, update_item_back_refs, insert_service, insert_domain}
use whcms.Payments.Apply.{ApplyTx, apply_payment}
use whcms.Payments.Ledger.{apply_payment-IsBalanced}
use whcms.Snipe.Ledger.{activate_snipe_after_payment-IsBalanced}
use whcms.System.Handlers.{Surroundings, bound_handlers}
use whcms.System.HandlersKept.{StepsKeep, bound_handlers-HandlersKeep}

update_service-IsBalanced : (svc : Service) → Keeps IsBalanced (update_service svc)
unfolding update_service
update_service-IsBalanced svc = frame-Keeps (update_service svc) (λ db. ground arith)

insert_service-IsBalanced : (svc : Service) → Keeps IsBalanced (insert_service svc)
unfolding insert_service
insert_service-IsBalanced svc = frame-Keeps (insert_service svc) (λ db. ground arith)

insert_domain-IsBalanced : (d : Domain) → Keeps IsBalanced (insert_domain d)
unfolding insert_domain
insert_domain-IsBalanced d = frame-Keeps (insert_domain d) (λ db. ground arith)

update_order_status-IsBalanced :
    (id : ℕ) (s : OrderStatus) → Keeps IsBalanced (update_order_status id s)
unfolding update_order_status
update_order_status-IsBalanced id s = frame-Keeps (update_order_status id s) (λ db. ground arith)

update_item_back_refs-IsBalanced :
    (id : ℕ) (service domain : Option ℕ)
    → Keeps IsBalanced (update_item_back_refs id service domain)
unfolding update_item_back_refs
update_item_back_refs-IsBalanced id service domain =
    frame-Keeps (update_item_back_refs id service domain) (λ db. ground arith)

IsBalanced-steps : StepsKeep IsBalanced
IsBalanced-steps = record {
  update_service-Keeps = λ svc. update_service-IsBalanced svc;
  insert_service-Keeps = λ svc. insert_service-IsBalanced svc;
  insert_domain-Keeps = λ d. insert_domain-IsBalanced d;
  update_order_status-Keeps = λ id s. update_order_status-IsBalanced id s;
  update_item_back_refs-Keeps =
      λ id service domain. update_item_back_refs-IsBalanced id service domain;
  activate_snipe_after_payment-Keeps =
      λ month now id. activate_snipe_after_payment-IsBalanced month now id;
}

-- A payment keeps every credit balance explained by its ledger and not negative, with the handlers of
-- the other modules as they are: orders, provisioning, domains and hunts, whatever the queue, the JSON
-- and the other surroundings answer.
pub whole_payment-IsBalanced :
    (e : Surroundings) (now : Time) (in_tx : Bool) (id : ℕ) (tx : ApplyTx)
    → Keeps IsBalanced (apply_payment (bound_handlers e) now in_tx id tx)
whole_payment-IsBalanced e now in_tx id tx =
    apply_payment-IsBalanced (bound_handlers e) now (bound_handlers-HandlersKeep IsBalanced-steps e)
      in_tx id tx
