-- ===== src/Tests/Plans.antt =====
-- A change of plan by UpgradeService.
use whcms.Base.{Option, [], if◌then◌else◌, none, some, ℕ, ◌+◌, ◌==◌, ◌∷◌}
use whcms.Base.Action.{ok}
use whcms.Base.Int.{negsuc, pos, ℤ}
use whcms.Base.Text.{Text, bytes}
use whcms.Domain.Calendar.{day_number}
use whcms.Domain.Enums.{BillingCycle, InvoiceStatus}
use whcms.Provisioning.Renewal.{ServiceUpgrade}
use whcms.Provisioning.Upgrade.{UpgradeJson, UpgradeServiceInput}
use whcms.Provisioning.World.{World, enqueue}
use whcms.Store.Tables.{Invoice, Service}
use whcms.Tests.Rack.{hosted, running_service}
use whcms.Tests.Sample.{noon}
use whcms.Provisioning.Renewal

abbrev yearly : Service
yearly = record running_service {
  billing_cycle = BillingCycle.annually;
  recurring_amount = pos 1200;
  next_due_date = some (record noon { year = 2027 });
  pending_upgrade = [];
}

abbrev to_monthly : UpgradeServiceInput
to_monthly = record { product_id = 4; cycle = BillingCycle.monthly; specs = [] }

abbrev plan_json : UpgradeJson
plan_json = record {
  encode_upgrade = λ u. bytes "up";
  encode_specs = λ specs. bytes "specs";
  with_chosen_specs = λ meta specs. meta;
}

abbrev year_ahead : World
year_ahead = record (hosted yearly) {
  db = record (hosted yearly).db {
    pricing = λ p c. some (record { price = pos 100; setup_fee = pos 0 });
  };
}

abbrev to_yearly : UpgradeServiceInput
to_yearly = record { product_id = 4; cycle = BillingCycle.annually; specs = [] }

-- A month has been paid for, and the new plan costs more than that.
abbrev monthly : Service
monthly = record yearly { billing_cycle = BillingCycle.monthly; recurring_amount = pos 40 }

abbrev year_to_pay : World
year_to_pay = record (hosted monthly) {
  db = record year_ahead.db { services = (hosted monthly).db.services };
}

-- A format for a pending upgrade: its numbers, and then its specifications.
cycle_code : BillingCycle → ℕ
cycle_code BillingCycle.monthly = 0
cycle_code BillingCycle.quarterly = 1
cycle_code BillingCycle.semiannually = 2
cycle_code BillingCycle.annually = 3
cycle_code BillingCycle.biennially = 4
cycle_code BillingCycle.one_time = 5

cycle_of : ℕ → BillingCycle
cycle_of n =
    if n == 0
    then BillingCycle.monthly
    else (if n == 1
        then BillingCycle.quarterly
        else (if n == 2
            then BillingCycle.semiannually
            else (if n == 3
                then BillingCycle.annually
                else (if n == 4 then BillingCycle.biennially else BillingCycle.one_time))))

abbrev int_code : ℤ → ℕ × ℕ
int_code (pos n) = (0, n)
int_code (negsuc n) = (1, n)

abbrev int_of : ℕ → ℕ → ℤ
int_of s n = if s == 0 then pos n else negsuc n

abbrev encoded : ServiceUpgrade → Text
encoded u =
    u.product_id
    ∷ cycle_code u.cycle
    ∷ (int_code u.recurring_amount).0
    ∷ (int_code u.recurring_amount).1
    ∷ u.invoice_id
    ∷ u.specs

abbrev decoded : Text → Option ServiceUpgrade
decoded (p ∷ c ∷ s ∷ n ∷ inv ∷ specs) = some (record {
  product_id = p;
  cycle = cycle_of c;
  recurring_amount = int_of s n;
  invoice_id = inv;
  specs = specs;
})
decoded _ = none

abbrev upgrade_json : UpgradeJson
upgrade_json = record plan_json { encode_upgrade = encoded }

abbrev paid_plans : Renewal.Outside
paid_plans = record {
  enqueue = λ job. ok tt;
  decode_upgrade = decoded;
  with_chosen_specs = λ meta specs. meta;
}

abbrev upgrade_bill : Invoice
upgrade_bill = record {
  id = 2;
  number = bytes "INV-202601-000001";
  client_id = 7;
  status = InvoiceStatus.unpaid;
  subtotal = pos 60;
  discount = pos 0;
  tax_rate = pos 11;
  tax_total = pos 0;
  credit_applied = pos 0;
  total = pos 60;
  due_date = day_number noon + 3;
  paid_at = none;
}
