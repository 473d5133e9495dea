-- ===== src/System/HandlersKept.antt =====
-- The handlers that backend/internal/composition binds keep what the steps that they are made of keep.
use whcms.Base.{ℕ, Bool, true, Option, List, [], ◌∷◌}
use whcms.Base.Text.{Text}
use whcms.Base.Keeps.{Keeps, keeps_rules, pure-Keeps, if-Keeps, then-Keeps}
use whcms.Domain.Calendar.{Time}
use whcms.Domain.Enums.{OrderStatus}
use whcms.Store.Tables.{Db, Order, OrderItem, Coupon, Service, Domain}
use whcms.Store.Services.{get_service, get_domain, update_service}
use whcms.Store.Orders.{
  get_order, get_order_items, order_id_for_order_item, update_order_status, update_item_back_refs,
  insert_service, insert_domain,
}
use whcms.Billing.Dispatch.{HandlersKeep}
use whcms.Snipe.Lifecycle.{activate_snipe_after_payment}
use whcms.Provisioning.Renewal
use whcms.Orders.Activate
use whcms.System.Handlers.{Surroundings, bound_handlers}

-- The steps that write, each of which keeps a property of the store.
pub record StepsKeep {μ} (P : Db → Type μ) : Type μ where
  pub update_service-Keeps : (svc : Service) → Keeps P (update_service svc)
  pub insert_service-Keeps : (svc : Service) → Keeps P (insert_service svc)
  pub insert_domain-Keeps : (d : Domain) → Keeps P (insert_domain d)
  pub update_order_status-Keeps : (id : ℕ) (s : OrderStatus) → Keeps P (update_order_status id s)
  pub update_item_back_refs-Keeps :
      (id : ℕ) (service domain : Option ℕ) → Keeps P (update_item_back_refs id service domain)
  pub activate_snipe_after_payment-Keeps :
      (month now id : ℕ) → Keeps P (activate_snipe_after_payment month now id)

module _ {μ} {P : Db → Type μ} (k : StepsKeep P) where
  open k use {
    update_service-Keeps, insert_service-Keeps, insert_domain-Keeps, update_order_status-Keeps,
    update_item_back_refs-Keeps, activate_snipe_after_payment-Keeps,
  }

  module _ (out : Renewal.Outside) where
    put_on_queue-Keeps : (j : Renewal.Job) → Keeps P (Renewal.put_on_queue out j)
    unfolding Renewal.put_on_queue
    put_on_queue-Keeps j = record { at = λ db v. v }

    renew_service-Keeps : (t : Time) (id : ℕ) → Keeps P (Renewal.renew_service out t id)
    unfolding Renewal.renew_service get_service
    renew_service-Keeps t id =
        search (keeps_rules, if-Keeps, update_service-Keeps, put_on_queue-Keeps) depth 20

    apply_upgrade-Keeps : (in_tx : Bool) (id : ℕ) → Keeps P (Renewal.apply_upgrade out in_tx id)
    unfolding Renewal.apply_upgrade Renewal.apply_decoded get_service
    apply_upgrade-Keeps in_tx id =
        search (keeps_rules, if-Keeps, update_service-Keeps, put_on_queue-Keeps) depth 20

    renew_domain-Keeps : (id : ℕ) → Keeps P (Renewal.renew_domain_after_payment out id)
    unfolding Renewal.renew_domain_after_payment get_domain
    renew_domain-Keeps id = search (keeps_rules, put_on_queue-Keeps) depth 20

  module _ (out : Activate.Outside) where
    put_setup-Keeps : (j : Activate.SetupJob) → Keeps P (Activate.put_setup out j)
    unfolding Activate.put_setup
    put_setup-Keeps j = record { at = λ db v. v }

    make_password-Keeps : (n : ℕ) → Keeps P (Activate.make_password out n)
    unfolding Activate.make_password
    make_password-Keeps n = record { at = λ db v. v }

    the_registrar-Keeps : Keeps P (Activate.the_registrar out)
    unfolding Activate.the_registrar
    the_registrar-Keeps = record { at = λ db v. v }

    the_nameservers-Keeps : Keeps P (Activate.the_nameservers out)
    unfolding Activate.the_nameservers
    the_nameservers-Keeps = record { at = λ db v. v }

    move_order-Keeps : (from to : OrderStatus) → Keeps P (Activate.move_order out from to)
    unfolding Activate.move_order
    move_order-Keeps from to = record { at = λ db v. v }

    item_options-Keeps : (raw : Text) → Keeps P (Activate.item_options out raw)
    unfolding Activate.item_options
    item_options-Keeps raw = search (keeps_rules, if-Keeps)

    product_item-Keeps :
        (o : Order) (it : OrderItem) (c : Option (ℕ × Coupon)) (t : Time)
        → Keeps P (Activate.activate_product_item out o it c t)
    unfolding Activate.activate_product_item
    product_item-Keeps o it c t =
        search
          (
            keeps_rules, if-Keeps, put_setup-Keeps, make_password-Keeps, insert_service-Keeps,
            update_item_back_refs-Keeps,
          )
          depth 30

    domain_item-Keeps :
        (o : Order) (it : OrderItem) → Keeps P (Activate.activate_domain_item out o it)
    unfolding Activate.activate_domain_item
    domain_item-Keeps o it =
        search
          (
            keeps_rules, put_setup-Keeps, the_registrar-Keeps, the_nameservers-Keeps,
            item_options-Keeps, insert_domain-Keeps, update_item_back_refs-Keeps,
          )
          depth 30

    activate_item-Keeps :
        (o : Order) (c : Option (ℕ × Coupon)) (t : Time) (it : OrderItem)
        → Keeps P (Activate.activate_item out o c t it)
    unfolding Activate.activate_item
    activate_item-Keeps o c t it =
        if-Keeps _ _ _ (pure-Keeps tt)
          (if-Keeps _ _ _ (product_item-Keeps o it c t) (domain_item-Keeps o it))

    activate_items-Keeps :
        (o : Order) (c : Option (ℕ × Coupon)) (t : Time) (items : List OrderItem)
        → Keeps P (Activate.activate_items out o c t items)
    unfolding Activate.activate_items
    activate_items-Keeps o c t [] = pure-Keeps tt
    activate_items-Keeps o c t (it ∷ rest) =
        then-Keeps _ _ (activate_item-Keeps o c t it) (activate_items-Keeps o c t rest)

    activate_order-Keeps :
        (in_tx : Bool) (t : Time) (id : ℕ) → Keeps P (Activate.activate_order out in_tx t id)
    unfolding Activate.activate_order Activate.activate_pending Activate.activate_in_tx get_order
        get_order_items
    activate_order-Keeps in_tx t id =
        search
          (keeps_rules, if-Keeps, move_order-Keeps, activate_items-Keeps, update_order_status-Keeps)
          depth 40

  order_lookup-Keeps : (id : ℕ) → Keeps P (order_id_for_order_item id)
  unfolding order_id_for_order_item
  order_lookup-Keeps id = search keeps_rules

  pub bound_handlers-HandlersKeep : (e : Surroundings) → HandlersKeep P (bound_handlers e)
  unfolding bound_handlers
  bound_handlers-HandlersKeep e = record {
    order_id_for_order_item = λ n. order_lookup-Keeps n;
    activate_order = λ n. activate_order-Keeps e.orders true e.today n;
    renew_service = λ n. renew_service-Keeps e.services e.today n;
    apply_upgrade = λ n. apply_upgrade-Keeps e.services true n;
    renew_domain_after_payment = λ n. renew_domain-Keeps e.services n;
    activate_snipe_after_payment = λ n. activate_snipe_after_payment-Keeps e.month e.instant n;
  }
