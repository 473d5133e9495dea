-- ===== src/Provisioning/Renewal.antt =====
-- `RenewService` and `ApplyUpgrade` of backend/internal/modules/provisioning/service.go, and
-- `RenewDomainAfterPayment` and `cycleYears` of backend/internal/modules/domains/service.go. Mails and
-- audit entries are left out.
use whcms.Base.{ℕ, ◌/◌, Bool, Option, none, some, [], if◌then◌else◌, leb, is_empty, same}
use whcms.Base.Text.{Text}
use whcms.Base.Int.{ℤ}
use whcms.Base.Action.{Action, Result, Code, ◌>>=◌, ◌>>◌, pure, or_raise, within_tx}
use whcms.Domain.Enums.{BillingCycle, ServiceStatus, ServiceStatus-discrete}
use whcms.Domain.Calendar.{Time}
use whcms.Domain.Cycle.{add_cycle, cycle_months}
use whcms.Store.Tables.{Db, Service}
use whcms.Store.Services.{get_service, get_domain, update_service}

-- The jobs of backend/internal/jobs that are put on the queue here.
pub data Job : Type 0 where
  provision_create provision_unsuspend provision_terminate : ℕ → Job
  provision_change_package : ℕ → Job
  provision_suspend : ℕ → Text → Job
  domain_renew : ℕ → ℕ → Job

-- The payload of pending_upgrade; `specs` is the JSON of its chosen specifications.
pub record ServiceUpgrade : Type 0 where
  pub product_id : ℕ
  pub cycle : BillingCycle
  pub recurring_amount : ℤ
  pub invoice_id : ℕ
  pub specs : Text

-- What the code relies on outside of it: the queue, which refuses a job or takes it, and the JSON
-- functions on pending_upgrade and on the chosen specifications in panel_meta.
pub record Outside : Type 0 where
  pub enqueue : Job → Result (Unit {0})
  pub decode_upgrade : Text → Option ServiceUpgrade
  pub with_chosen_specs : Text → Text → Text

abbrev pub or_today : Option Time → Time → Time
or_today none today = today
or_today (some due) today = due

-- The service after one more cycle.
abbrev pub renewed : Time → Service → Service
renewed today svc = record svc {
  next_due_date = some (add_cycle (or_today svc.next_due_date today) (some svc.billing_cycle));
}

abbrev pub upgraded : (Text → Text → Text) → ServiceUpgrade → Service → Service
upgraded with_chosen_specs up svc = record svc {
  product_id = up.product_id;
  billing_cycle = up.cycle;
  recurring_amount = up.recurring_amount;
  pending_upgrade = [];
  panel_meta = with_chosen_specs svc.panel_meta up.specs;
}

unfoldable pub cycle_years : BillingCycle → ℕ
cycle_years c = if leb 12 (cycle_months (some c)) then cycle_months (some c) / 12 else 1

module _ (out : Outside) where
  open out use {enqueue, decode_upgrade, with_chosen_specs}

  unfoldable pub put_on_queue : Job → Action Db (Unit {0})
  put_on_queue job db = (enqueue job, db)

  unfoldable pub renew_service : Time → ℕ → Action Db (Unit {0})
  renew_service today id = do
    svc ← get_service id
    update_service (renewed today svc)
    if same ServiceStatus-discrete svc.status ServiceStatus.suspended
        then put_on_queue (Job.provision_unsuspend svc.id)
        else pure tt

  unfoldable pub apply_decoded : Bool → Service → ServiceUpgrade → Action Db (Unit {0})
  apply_decoded in_tx svc up =
      within_tx in_tx (λ _. update_service (upgraded with_chosen_specs up svc))
      >> put_on_queue (Job.provision_change_package svc.id)

  unfoldable pub apply_upgrade : Bool → ℕ → Action Db (Unit {0})
  apply_upgrade in_tx id = get_service id >>= λ svc.
      if is_empty svc.pending_upgrade
      then pure tt
      else or_raise (decode_upgrade svc.pending_upgrade) Code.internal >>= λ up.
          apply_decoded in_tx svc up

  unfoldable pub renew_domain_after_payment : ℕ → Action Db (Unit {0})
  renew_domain_after_payment id =
      get_domain id >>= λ d. put_on_queue (Job.domain_renew d.id (cycle_years d.billing_cycle))
