-- ===== src/Provisioning/UpgradePaid.antt =====
-- `UpgradeService` and then `ApplyUpgrade` of backend/internal/modules/provisioning/service.go.
use whcms.Base.{ℕ, ◌≡◌, true, none, some, List, [], ◌∷◌, ◌++◌, ◌==◌, if◌then◌else◌}
use whcms.Base.Int.{ℤ}
use whcms.Base.Float.{Float}
use whcms.Domain.Calendar.{Time}
use whcms.Store.Tables.{Db, Service, Invoice}
use whcms.Billing.Create.{Settings}
use whcms.Provisioning.World.{World}
use whcms.Provisioning.World
use whcms.Provisioning.Renewal
use whcms.Provisioning.Upgrade.{UpgradeServiceInput, UpgradeJson, price_change}
use whcms.Domain.Enums.{RelatedType}
use whcms.Provisioning.UpgradeSpecs.{UpgradeSpec}
use whcms.Provisioning.PlanChange.{IsPriced}

-- What the service is after the payment of an upgrade, and what was invoiced for it: `old` is the store
-- before the request, `asked` the one after it and `db` the one after the payment.
pub record IsUpgraded (out : World.Outside) (json : UpgradeJson) (f : Float) (settings : Settings)
    (now : Time) (id : ℕ) (svc : Service) (i : UpgradeServiceInput) (diff : ℤ) (inv : Invoice)
    (old asked db : Db) : Type 0 where
  pub row : Service
  pub until : Time
  pub found : db.services id ≡ some row
  pub new_product : row.product_id ≡ i.product_id
  pub new_cycle : row.billing_cycle ≡ i.cycle
  pub none_pending : row.pending_upgrade ≡ []
  pub due_as_before : row.next_due_date ≡ some until
  pub specs : List UpgradeSpec
  pub priced : IsPriced out json f settings now id svc i old row.recurring_amount specs
  pub stored : asked.invoices inv.id ≡ some inv
  pub for_client : inv.client_id ≡ svc.client_id
  pub line :
      asked.items
      ≡ old.items
        ++ (record {
          invoice_id = inv.id;
          amount = diff;
          taxed = true;
          related_type = RelatedType.service_upgrade;
          related_id = if svc.id == 0 then none else some svc.id;
        }
            ∷ [])
  pub price_paid_for :
      diff ≡ price_change out json f settings now svc i.cycle row.recurring_amount until
