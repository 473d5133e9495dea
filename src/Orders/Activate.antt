-- ===== src/Orders/Activate.antt =====
-- `ActivateOrder`, `activateProductItem`, `activateDomainItem` and `containsAddon` of
-- backend/internal/modules/orders/activate.go, and `Accept` of service.go. Mails and alerts to the
-- admin are left out.
use whcms.Base.{
  ℕ, Bool, true, false, not, ◌&&◌, ◌||◌, Option, none, some, List, [], ◌∷◌, ◌==◌, if◌then◌else◌,
  any, is_empty, same,
}
use whcms.Base.Text.{Text, eqb_text}
use whcms.Base.Int.{ℤ, pos, eqb_ℤ}
use whcms.Base.Word.{div64}
use whcms.Base.Action.{Action, Result, Code, ◌>>=◌, ◌>>◌, pure, raise, or_raise, gets, within_tx}
use whcms.Domain.Enums.{
  BillingCycle, OrderStatus, OrderItemType, ServiceStatus, DomainStatus, AutoSetup,
  ServerModuleName, OrderStatus-discrete, OrderItemType-discrete,
}
use whcms.Domain.Calendar.{Time}
use whcms.Domain.Cycle.{add_cycle}
use whcms.Domain.Username.{username_from_domain}
use whcms.Domain.StateMachine.{transition_order}
use whcms.Store.Tables.{Db, Order, OrderItem, Product, Coupon, Service}
use whcms.Store.Orders.{
  get_order, get_order_items, update_order_status, update_item_back_refs, insert_service,
  insert_domain,
}
use whcms.Billing.Discount.{plan_eligible, recurring_with_coupon}

-- What a paid order puts on the queue.
pub data SetupJob : Type 0 where
  provision_create : ℕ → SetupJob
  domain_register domain_transfer : ℕ → ℕ → SetupJob

-- The fields of an item's options that activation reads; `specs` is their JSON, empty without any.
pub record ItemOptions : Type 0 where
  pub specs : Text
  pub domain_years : ℕ
  pub domain_renew_per_year : ℤ
  pub domain_addons : List Text

-- What the code relies on outside of it: JSON, the queue, the random password and its encryption, the
-- registrars table and the nameserver setting.
pub record Outside : Type 0 where
  pub decode_options : Text → Option ItemOptions
  pub chosen_specs_meta : Text → Text
  pub enqueue : SetupJob → Result (Unit {0})
  pub new_password : ℕ → Result Text
  pub registrar : Result ℕ
  pub default_nameservers : Result Text

unfoldable pub contains_addon : List Text → Text → Bool
contains_addon keys key = any (λ k. eqb_text k key) keys

abbrev default_years : ℕ
default_years = 1

abbrev is_one_time : BillingCycle → Bool
is_one_time BillingCycle.one_time = true
is_one_time _ = false

abbrev is_unmanaged : ServerModuleName → Bool
is_unmanaged ServerModuleName.unmanaged = true
is_unmanaged _ = false

abbrev is_manual : AutoSetup → Bool
is_manual AutoSetup.manual = true
is_manual _ = false

-- `couponAppliesToProduct` and the recurring amount that is stored.
abbrev priced : Option (ℕ × Coupon) → ℕ → ℤ → ℤ × Option ℕ
priced none product price = (price, none)
priced (some (id, c)) product price =
    if c.recurring && plan_eligible c (record { product = some product; unit = price })
    then (recurring_with_coupon c price, some id)
    else (price, none)

module _ (out : Outside) where
  open out use {
    decode_options, chosen_specs_meta, enqueue, new_password, registrar, default_nameservers,
  }

  abbrev specs_of : Option ItemOptions → Text
  specs_of none = []
  specs_of (some o) = o.specs

  -- A decoding error counts as no specs here.
  abbrev meta_of : Product → Text → Text
  meta_of p options =
      if p.configurable && not (is_empty options)
      then (let specs = specs_of (decode_options options) in
          if is_empty specs then [] else chosen_specs_meta specs)
      else []

  unfoldable pub service_row :
      Order → OrderItem → ℕ → Product → Option (ℕ × Coupon) → Text → Time → Service
  service_row order it product_id p coupon password today =
      let price = priced coupon product_id it.unit_price in
      let ready = is_unmanaged p.server_module in
      record {
        id = 0;
        client_id = order.client_id;
        order_item_id = some it.id;
        product_id = product_id;
        server_id = none;
        domain_name = it.domain;
        username = username_from_domain it.domain;
        password_enc = password;
        status = if ready then ServiceStatus.active else ServiceStatus.pending;
        billing_cycle = it.cycle;
        recurring_amount = price.0;
        setup_fee = it.setup_fee;
        next_due_date =
            if is_one_time it.cycle then none else some (add_cycle today (some it.cycle));
        registration_date = if ready then some today else none;
        terminated_at = none;
        suspend_reason = [];
        panel_meta = meta_of p it.options;
        coupon_id = price.1;
        pending_upgrade = [];
      }

  unfoldable pub put_setup : SetupJob → Action Db (Unit {0})
  put_setup job db = (enqueue job, db)

  unfoldable pub make_password : ℕ → Action Db Text
  make_password item db = (new_password item, db)

  unfoldable pub activate_product_item :
      Order → OrderItem → Option (ℕ × Coupon) → Time → Action Db (Unit {0})
  activate_product_item order it coupon today = do
    product_id ← or_raise it.product_id Code.internal
    found ← gets (λ db. db.products product_id)
    p ← or_raise found Code.not_found
    password ← make_password it.id
    service_id ← insert_service (service_row order it product_id p coupon password today)
    update_item_back_refs it.id (some service_id) none
    if is_unmanaged p.server_module || is_manual p.auto_setup
        then pure tt
        else put_setup (SetupJob.provision_create service_id)

  abbrev no_options : ItemOptions
  no_options = record {
    specs = [];
    domain_years = 0;
    domain_renew_per_year = pos 0;
    domain_addons = [];
  }

  unfoldable pub item_options : Text → Action Db ItemOptions
  item_options raw =
      if is_empty raw then pure no_options else or_raise (decode_options raw) Code.internal

  unfoldable pub the_registrar : Action Db ℕ
  the_registrar db = (registrar, db)

  unfoldable pub the_nameservers : Action Db Text
  the_nameservers db = (default_nameservers, db)

  -- The rate that was frozen at the checkout, or the price by the year.
  unfoldable pub per_year : ItemOptions → ℕ → ℤ → ℤ
  per_year o years price =
      if eqb_ℤ o.domain_renew_per_year (pos 0)
      then div64 price (pos years)
      else o.domain_renew_per_year

  abbrev is_transfer : OrderItem → Bool
  is_transfer it = same OrderItemType-discrete it.item_type OrderItemType.domain_transfer

  unfoldable pub activate_domain_item : Order → OrderItem → Action Db (Unit {0})
  activate_domain_item order it = do
    registrar_id ← the_registrar
    opts ← item_options it.options
    the_nameservers
    let years = if opts.domain_years == 0 then default_years else opts.domain_years
    domain_id ← insert_domain (record {
      id = 0;
      client_id = order.client_id;
      registrar_id = registrar_id;
      name = it.domain;
      status = if is_transfer it then DomainStatus.pending_transfer else DomainStatus.pending;
      next_due_date = none;
      recurring_amount = per_year opts years it.unit_price;
      billing_cycle = BillingCycle.annually;
      auto_renew = true;
    })
    update_item_back_refs it.id none (some domain_id)
    put_setup (
        if is_transfer it
        then SetupJob.domain_transfer domain_id years
        else SetupJob.domain_register domain_id years)

  abbrev pub is_done : OrderItem → Bool
  is_done it = elim it.service_id [
    | some s ↦ true
    | none ↦ elim it.domain_id [ some d ↦ true | none ↦ false ]
  ]

  unfoldable pub activate_item :
      Order → Option (ℕ × Coupon) → Time → OrderItem → Action Db (Unit {0})
  activate_item order coupon today it =
      if is_done it
      then pure tt
      else (if same OrderItemType-discrete it.item_type OrderItemType.product
          then activate_product_item order it coupon today
          else activate_domain_item order it)

  unfoldable pub activate_items :
      Order → Option (ℕ × Coupon) → Time → List OrderItem → Action Db (Unit {0})
  activate_items order coupon today [] = pure tt
  activate_items order coupon today (it ∷ rest) =
      activate_item order coupon today it >> activate_items order coupon today rest

  unfoldable pub move_order : OrderStatus → OrderStatus → Action Db OrderStatus
  move_order from to db = (transition_order from to, db)

  unfoldable pub activate_in_tx :
      ℕ → Order → Option (ℕ × Coupon) → Time → List OrderItem → Action Db (Unit {0})
  activate_in_tx id order coupon today items = do
    activate_items order coupon today items
    next ← move_order order.status OrderStatus.active
    update_order_status id next

  -- The coupon of an order; one that is gone is none.
  abbrev coupon_of : Option ℕ → Db → Option (ℕ × Coupon)
  coupon_of none db = none
  coupon_of (some id) db = elim (db.coupons id) [ none ↦ none | some c ↦ some (id, c) ]

  unfoldable pub activate_pending : Bool → Time → ℕ → Order → Action Db (Unit {0})
  activate_pending in_tx today id order = do
    client ← gets (λ db. db.clients order.client_id)
    or_raise client Code.not_found
    items ← get_order_items id
    coupon ← gets (coupon_of order.coupon_id)
    within_tx in_tx (λ _. activate_in_tx id order coupon today items)

  unfoldable pub activate_order : Bool → Time → ℕ → Action Db (Unit {0})
  activate_order in_tx today id = get_order id >>= λ order.
      if same OrderStatus-discrete order.status OrderStatus.active
      then pure tt
      else (if same OrderStatus-discrete order.status OrderStatus.pending
          then activate_pending in_tx today id order
          else raise Code.conflict)

  unfoldable pub accept : Time → ℕ → Action Db Order
  accept today id = do
    order ← get_order id
    activate_order false today id
    pure (record order { status = OrderStatus.active })
