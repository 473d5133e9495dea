-- ===== src/Provisioning/Schedule.antt =====
-- The scheduled jobs `AutoSuspend` and `AutoTerminate` of
-- backend/internal/modules/provisioning/service.go, with the queries `ListOverdueSuspendable` and
-- `ListTerminatable` of repo.go there.
use whcms.Base.{
  ℕ, suc, ◌+◌, Bool, false, ◌&&◌, ◌||◌, Option, none, some, List, [], ◌∷◌, ◌==◌, if◌then◌else◌, any,
  same, leb, ltb,
}
use whcms.Base.Text.{Text, bytes}
use whcms.Base.Action.{Action, Result, ok, err, ◌>>=◌, pure, gets, attempt}
use whcms.Domain.Enums.{ServiceStatus, InvoiceStatus, InvoiceStatus-discrete, RelatedType}
use whcms.Domain.Calendar.{Time, day_number}
use whcms.Store.Tables.{Db, Service, Invoice, InvoiceItem}
use whcms.Store.Listing.{rows_below}
use whcms.Store.Invoices.{points_at}
use whcms.Store.Services.{due_by}
use whcms.Billing.Renewals.{panel_meta_cancel_at_period_end}
use whcms.Provisioning.World.{World, Outside, on_db, enqueue}
use whcms.Provisioning.Lifecycle.{has_status}
use whcms.Provisioning.Cancellation.{is_running}
use whcms.Provisioning.Renewal.{Job}

-- `status = 'overdue' AND due_date <= today - days`
abbrev pub is_long_overdue : ℕ → ℕ → Option Invoice → Bool
is_long_overdue today days none = false
is_long_overdue today days (some inv) =
    same InvoiceStatus-discrete inv.status InvoiceStatus.overdue && leb (inv.due_date + days) today

-- The service is active, and one of its renewals has been overdue for so many days.
abbrev pub is_suspendable : ℕ → ℕ → Db → Service → Bool
is_suspendable today days db s =
    has_status s ServiceStatus.active
    && any
        (λ (it : InvoiceItem).
          points_at RelatedType.service_renewal s.id it
          && is_long_overdue today days (db.invoices it.invoice_id))
        db.items

unfoldable pub list_overdue_suspendable : ℕ → ℕ → Action Db (List Service)
list_overdue_suspendable today days =
    gets λ db. rows_below db.services (is_suspendable today days db) db.next_service

-- `suspendReasonOverdue`
abbrev pub overdue_reason : Text
overdue_reason = bytes "Overdue on payment"

-- The instant lies so many days before another one.
abbrev pub is_past : ℕ → Time → Time → Bool
is_past days now t =
    if day_number t + days == day_number now
    then leb t.clock now.clock
    else ltb (day_number t + days) (day_number now)

-- `suspended_at` and `decode` are the casts of the database, which read the two members of panel_meta in
-- the query itself.
module _ (suspended_at : Text → Option Time) (updated_at : ℕ → Time)
    (decode : Text → Option Bool) where
  -- `COALESCE((panel_meta->>'suspended_at')::timestamptz, updated_at)`
  abbrev stopped_at : Service → Time
  stopped_at s = elim (suspended_at s.panel_meta) [ none ↦ updated_at s.id | some t ↦ t ]

  abbrev pub is_terminatable : Time → ℕ → Service → Bool
  is_terminatable now days s =
      (has_status s ServiceStatus.suspended && is_past days now (stopped_at s))
      || (is_running s
          && panel_meta_cancel_at_period_end decode s.panel_meta
          && due_by (day_number now) s.next_due_date)

  unfoldable pub list_terminatable : Time → ℕ → Action Db (List Service)
  list_terminatable now days =
      gets λ db. rows_below db.services (is_terminatable now days) db.next_service

-- The loop over the services: the number of jobs on the queue comes back, with the first error.
module _ (out : Outside) where
  unfoldable pub enqueue_each :
      (Service → Job) → List Service → ℕ → Action World (ℕ × Result (Unit {0}))
  enqueue_each job [] n = pure (n, ok tt)
  enqueue_each job (s ∷ rest) n = attempt (enqueue out (job s)) >>= λ r. elim r [
    | ok u ↦ enqueue_each job rest (suc n)
    | err c ↦ pure (n, err c)
  ]

  -- `days` is automation.suspend_after_days.
  unfoldable pub auto_suspend : Time → ℕ → Action World (ℕ × Result (Unit {0}))
  auto_suspend now days = on_db (list_overdue_suspendable (day_number now) days) >>= λ services.
      enqueue_each (λ s. Job.provision_suspend s.id overdue_reason) services 0

  -- `days` is automation.terminate_after_days.
  unfoldable pub auto_terminate :
      (Text → Option Time)
      → (ℕ → Time)
      → (Text → Option Bool)
      → Time
      → ℕ
      → Action World (ℕ × Result (Unit {0}))
  auto_terminate suspended_at updated_at decode now days =
      on_db (list_terminatable suspended_at updated_at decode now days) >>= λ services.
      enqueue_each (λ s. Job.provision_terminate s.id) services 0
