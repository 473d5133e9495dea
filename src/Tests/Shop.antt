-- ===== src/Tests/Shop.antt =====
-- A store with a service, a product, an order and a hunt, and what is outside of the modules.
use whcms.Base.{true, false, none, some, [], ◌∷◌, ◌==◌, if◌then◌else◌}
use whcms.Base.Text.{bytes}
use whcms.Base.Int.{pos}
use whcms.Base.Action.{ok}
use whcms.Domain.Enums.{
  InvoiceStatus, ServiceStatus, BillingCycle, ServerModuleName, AutoSetup, OrderStatus,
  OrderItemType,
}
use whcms.Store.Tables.{Db, DomainSnipe, Service, Product, Order, OrderItem}
use whcms.Billing.Create.{Settings}
use whcms.Provisioning.Renewal
use whcms.Provisioning.Renewal.{ServiceUpgrade}
use whcms.Orders.Activate
use whcms.System.Handlers.{Surroundings}
use whcms.Tests.Sample.{noon, shop}

-- A monthly service and a product with three in stock.
abbrev pub hosting : Service
hosting = record {
  id = 3;
  client_id = 7;
  order_item_id = none;
  product_id = 4;
  server_id = none;
  domain_name = bytes "a.id";
  username = bytes "aid";
  password_enc = [];
  status = ServiceStatus.active;
  billing_cycle = BillingCycle.monthly;
  recurring_amount = pos 100;
  setup_fee = pos 0;
  next_due_date = some noon;
  registration_date = some noon;
  terminated_at = none;
  suspend_reason = [];
  panel_meta = [];
  coupon_id = none;
  pending_upgrade = bytes "up";
}

abbrev pub plan : Product
plan = record {
  server_module = ServerModuleName.cpanel;
  server_group_id = some 2;
  package_name = bytes "basic";
  toggles = record {
    feature_list = [];
    shell_access = false;
    cgi_access = false;
    template_package = [];
  };
  configurable = false;
  stock_enabled = true;
  stock_qty = 3;
  auto_setup = AutoSetup.on_payment;
}

-- An order of a client, with one product on it.
abbrev pub ordered : Order
ordered = record {
  id = 1;
  number = bytes "ORD-000001";
  client_id = 7;
  status = OrderStatus.pending;
  subtotal = pos 100;
  discount = pos 0;
  tax_total = pos 0;
  total = pos 100;
  coupon_id = none;
}

abbrev pub ordered_item : OrderItem
ordered_item = record {
  id = 1;
  order_id = 1;
  item_type = OrderItemType.product;
  product_id = some 4;
  domain = bytes "a.id";
  options = [];
  cycle = BillingCycle.monthly;
  unit_price = pos 100;
  setup_fee = pos 0;
  service_id = none;
  domain_id = none;
}

-- The shop with a service, a product, an order and a hunt.
abbrev pub busy_shop : InvoiceStatus → DomainSnipe → Db
busy_shop status s = record (shop status) {
  services = λ n. if n == 3 then some hosting else none;
  next_service = 4;
  products = λ n. if n == 4 then some plan else none;
  orders = λ n. if n == 1 then some ordered else none;
  next_order = 2;
  order_items = ordered_item ∷ [];
  next_order_item = 2;
  snipes = λ n. if n == 5 then some s else none;
  next_snipe = 6;
}

abbrev pub settings : Settings
settings = record {
  tax_enabled = true;
  tax_rate = pos 11;
  tax_inclusive = false;
  invoice_due_days = 3;
}

abbrev pub upgrade : ServiceUpgrade
upgrade = record {
  product_id = 6;
  cycle = BillingCycle.annually;
  recurring_amount = pos 900;
  invoice_id = 1;
  specs = [];
}

abbrev pub provisioning : Renewal.Outside
provisioning = record {
  enqueue = λ job. ok tt;
  decode_upgrade = λ t. some upgrade;
  with_chosen_specs = λ specs meta. meta;
}

abbrev pub ordering : Activate.Outside
ordering = record {
  decode_options = λ t. none;
  chosen_specs_meta = λ specs. [];
  enqueue = λ job. ok tt;
  new_password = λ n. ok (bytes "x");
  registrar = ok 1;
  default_nameservers = ok [];
}

abbrev pub surroundings : Surroundings
surroundings = record {
  orders = ordering;
  services = provisioning;
  today = noon;
  instant = 20;
  month = 30;
}
