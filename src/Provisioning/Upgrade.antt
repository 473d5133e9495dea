-- ===== src/Provisioning/Upgrade.antt =====
-- `UpgradeService` of backend/internal/modules/provisioning/service.go. The request's body is one that
-- its validation lets through; audit entries and descriptions are left out.
use whcms.Base.{
  ℕ, zero, suc, Bool, true, false, not, ◌&&◌, ◌||◌, some, List, [], ◌∷◌, ◌==◌, if◌then◌else◌, ltb,
  is_empty, same,
}
use whcms.Base.Text.{Text}
use whcms.Base.Int.{ℤ, pos, ltb_ℤ}
use whcms.Base.Word.{add64, sub64}
use whcms.Base.Float.{Float}
use whcms.Base.Action.{Action, Code, ◌>>=◌, ◌>>◌, pure, raise_if, or_raise, gets, within_tx}
use whcms.Domain.Enums.{
  BillingCycle, BillingCycle-discrete, ServiceStatus, ServerModuleName-discrete, RelatedType,
}
use whcms.Domain.Calendar.{Time, days_in}
use whcms.Domain.Cycle.{cycle_months}
use whcms.Domain.Prorate.{prorate}
use whcms.Store.Tables.{Db, Service, Product, Invoice, ProductPricing}
use whcms.Store.Services.{update_service}
use whcms.Store.Credit.{add_credit}
use whcms.Billing.Create.{Settings, create_invoice}
use whcms.Provisioning.Renewal.{Job, ServiceUpgrade}
use whcms.Provisioning.World.{World, Outside, on_db, enqueue}
use whcms.Provisioning.Context.{get_product}
use whcms.Provisioning.Lifecycle.{has_status}
use whcms.Provisioning.Cancellation.{get_owned}
use whcms.Provisioning.UpgradeSpecs.{
  UpgradeSpecInput, UpgradeSpec, resolve_upgrade_specs, same_chosen_specs,
}

pub record UpgradeServiceInput : Type 0 where
  pub product_id : ℕ
  pub cycle : BillingCycle
  pub specs : List UpgradeSpecInput

-- The JSON of pending_upgrade, of its specifications, and of the snapshot in panel_meta.
pub record UpgradeJson : Type 0 where
  pub encode_upgrade : ServiceUpgrade → Text
  pub encode_specs : List UpgradeSpec → Text
  pub with_chosen_specs : Text → List UpgradeSpec → Text

-- A price difference to be paid first, or a change that is applied at once with a credit.
pub data UpgradeResult : Type 0 where
  invoiced : ℤ → Invoice → UpgradeResult
  applied : ℤ → ℤ → UpgradeResult

-- `AddDate(0, 0, 1)`
abbrev next_day : Time → Time
next_day t =
    if ltb t.day (days_in t.year t.month)
    then record t { day = suc t.day }
    else (if ltb t.month 12
        then record t { month = suc t.month; day = 1 }
        else record t { year = suc t.year; month = 1; day = 1 })

unfoldable pub add_days : ℕ → Time → Time
add_days zero t = t
add_days (suc n) t = next_day (add_days n t)

abbrev pub changed_plan :
    (Text → List UpgradeSpec → Text)
    → UpgradeServiceInput
    → ℤ
    → List UpgradeSpec
    → Service
    → Service
changed_plan put_specs i price specs svc = record svc {
  product_id = i.product_id;
  billing_cycle = i.cycle;
  recurring_amount = price;
  panel_meta = put_specs svc.panel_meta specs;
}

abbrev same_plan : UpgradeServiceInput → Service → Bool
same_plan i svc =
    svc.product_id == i.product_id && same BillingCycle-discrete svc.billing_cycle i.cycle

-- A missing row is an error of the request here.
unfoldable pub target_pricing : UpgradeServiceInput → Action Db ProductPricing
target_pricing i = do or_raise (← gets (λ db. db.pricing i.product_id i.cycle)) Code.validation

module _ (out : Outside) (json : UpgradeJson) (f : Float) (settings : Settings) (now : Time) where
  open json use {encode_upgrade, encode_specs, with_chosen_specs}

  -- What the rest of the cycle costs in the new plan, less what it was worth in the old one.
  abbrev pub price_change : Service → BillingCycle → ℤ → Time → ℤ
  price_change svc cycle price until =
      sub64 (prorate f price (some cycle) now until)
        (prorate f svc.recurring_amount (some svc.billing_cycle) now until)

  unfoldable pub target_specs : UpgradeServiceInput → Product → Action Db (List UpgradeSpec × ℤ)
  target_specs i target =
      if target.configurable
      then resolve_upgrade_specs i.product_id i.specs i.cycle
      else (raise_if (not (is_empty i.specs)) Code.validation >> pure ([], pos 0))

  unfoldable pub invoice_upgrade :
      UpgradeServiceInput → ℤ → List UpgradeSpec → Service → ℤ → Action Db UpgradeResult
  invoice_upgrade i price specs svc diff = do
    inv ← create_invoice f settings now false (record {
      client_id = svc.client_id;
      items =
          record {
            amount = diff;
            taxed = true;
            related_type = RelatedType.service_upgrade;
            related_id = svc.id;
          }
          ∷ [];
      discount = pos 0;
      due_date = some (add_days settings.invoice_due_days now);
    })
    update_service (record svc {
      pending_upgrade = encode_upgrade (record {
        product_id = i.product_id;
        cycle = i.cycle;
        recurring_amount = price;
        invoice_id = inv.id;
        specs = encode_specs specs;
      });
    })
    pure (UpgradeResult.invoiced diff inv)

  unfoldable pub change_now :
      UpgradeServiceInput → ℤ → List UpgradeSpec → Service → ℤ → Action Db (Unit {0})
  change_now i price specs svc credit = within_tx false (λ _.
      update_service (changed_plan with_chosen_specs i price specs svc)
      >> (if ltb_ℤ (pos 0) credit then add_credit true svc.client_id credit 0 else pure tt))

  unfoldable pub apply_change :
      UpgradeServiceInput → ℤ → List UpgradeSpec → Service → ℤ → Action World UpgradeResult
  apply_change i price specs svc diff =
      if ltb_ℤ (pos 0) diff
      then on_db (invoice_upgrade i price specs svc diff)
      else (on_db (change_now i price specs svc (sub64 (pos 0) diff))
          >> (enqueue out (Job.provision_change_package svc.id)
              >> pure (UpgradeResult.applied diff (sub64 (pos 0) diff))))

  unfoldable pub upgrade_owned : UpgradeServiceInput → Service → Action World UpgradeResult
  upgrade_owned i svc = do
    raise_if (not (has_status svc ServiceStatus.active)) Code.conflict
    raise_if (not (is_empty svc.pending_upgrade)) Code.conflict
    current ← on_db (get_product svc.product_id)
    target ← on_db (get_product i.product_id)
    raise_if (not (same ServerModuleName-discrete target.server_module current.server_module))
        Code.validation
    chosen ← on_db (target_specs i target)
    raise_if
        (same_plan i svc
          && (not target.configurable
              || same_chosen_specs (out.chosen_specs svc.panel_meta) chosen.0))
        Code.validation
    pricing ← on_db (target_pricing i)
    until ← or_raise svc.next_due_date Code.conflict
    let price = add64 pricing.price chosen.1
    apply_change i price chosen.0 svc (price_change svc i.cycle price until)

  unfoldable pub upgrade_service : ℕ → ℕ → UpgradeServiceInput → Action World UpgradeResult
  upgrade_service client id i = do
    raise_if (cycle_months (some i.cycle) == 0) Code.validation
    svc ← on_db (get_owned client id)
    upgrade_owned i svc
