-- ===== src/System/Handlers.antt =====
-- The handlers of a paid invoice as backend/internal/composition binds them: the orders, provisioning,
-- domains and snipe modules. All run inside the transaction of the payment.
use whcms.Base.{ℕ, true}
use whcms.Domain.Calendar.{Time}
use whcms.Store.Orders.{order_id_for_order_item}
use whcms.Billing.Paid.{Handlers}
use whcms.Snipe.Lifecycle.{activate_snipe_after_payment}
use whcms.Provisioning.Renewal
use whcms.Orders.Activate

-- What is outside of the modules, the day, and the instant with the length of 30 days in its unit.
pub record Surroundings : Type 0 where
  pub orders : Activate.Outside
  pub services : Renewal.Outside
  pub today : Time
  pub instant : ℕ
  pub month : ℕ

unfoldable pub bound_handlers : Surroundings → Handlers
bound_handlers e = record {
  order_id_for_order_item = order_id_for_order_item;
  activate_order = λ id. Activate.activate_order e.orders true e.today id;
  renew_service = λ id. Renewal.renew_service e.services e.today id;
  apply_upgrade = λ id. Renewal.apply_upgrade e.services true id;
  renew_domain_after_payment = λ id. Renewal.renew_domain_after_payment e.services id;
  activate_snipe_after_payment = λ id. activate_snipe_after_payment e.month e.instant id;
}
