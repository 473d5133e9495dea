-- ===== src/Provisioning/Refused.antt =====
-- About suspensions, unsuspensions and terminations of
-- backend/internal/modules/provisioning/service.go that end in an error.
use whcms.Base.{ℕ, ◌≡◌, ◌≢◌, refl, Bool, true, false, Option, none, some, inl, inr, Option-cases}
use whcms.Base.Text.{Text}
use whcms.Base.Action.{Result, ok, err, Code, pure, gets}
use whcms.Domain.Enums.{ServiceStatus}
use whcms.Domain.Calendar.{Time}
use whcms.Store.Tables.{Service}
use whcms.Store.Services.{get_service, update_service}
use whcms.Store.Cancellations.{get_pending_by_service}
use whcms.Provisioning.World.{World, Outside, PanelCall, ServerConfig, on_db}
use whcms.Provisioning.Context.{panel_context}
use whcms.Provisioning.Jobs.{PanelJob, run_panel_job}
use whcms.Provisioning.Lifecycle
use whcms.Provisioning.Lifecycle.{
  has_status, provision_suspend, provision_unsuspend, provision_terminate,
}
use whcms.Provisioning.Frames.{
  on_db-Keeps, lift_result-Keeps, get_service-Keeps, panel_context-Keeps,
}
use whcms.Provisioning.Panels.{on_panel-Keeps}
use whcms.Provisioning.Clean.{
  IsClean, IsSure, Reads, not_refused, read-IsClean, bind-IsSure, read_then-IsClean,
  done_then-IsClean, then-IsSure, pure-IsSure, attempt-IsSure, gets-IsSure, if-IsSure, if-IsClean,
  sure-IsClean,
}

update_service-IsClean : (svc : Service) → IsClean (on_db (update_service svc))
unfolding on_db update_service
update_service-IsClean svc = record {
  at = λ w c. elim (Option-cases (w.db.services svc.id)) [
    | inl gone ↦ rw (gone, update_service) (λ h. refl)
    | inr (old, found) ↦ rw (found, update_service) (λ h. absurd (not_refused tt c h))
  ];
}

get_pending_by_service-IsSure : (id : ℕ) → IsSure (on_db (get_pending_by_service id))
unfolding on_db get_pending_by_service gets
get_pending_by_service-IsSure id = record { at = λ w c h. not_refused _ c h }

module _ (out : Outside) where
  check_move-Reads : (from to : ServiceStatus) → Reads (Lifecycle.check_move from to)
  unfolding Lifecycle.check_move
  check_move-Reads from to d = lift_result-Keeps _

  on_panel-Reads :
      (cfg : Option ServerConfig) (call : ServerConfig → PanelCall)
      → Reads (Lifecycle.on_panel out cfg call)
  on_panel-Reads cfg call d = on_panel-Keeps out cfg call

  panel_context-Reads : (svc : Service) → Reads (on_db (panel_context out svc))
  panel_context-Reads svc d = on_db-Keeps _ (panel_context-Keeps out svc)

  get_service-Reads : (id : ℕ) → Reads (on_db (get_service id))
  get_service-Reads id d = on_db-Keeps _ (get_service-Keeps id)

  suspend_checked-IsClean :
      (now : Time) (reason : Text) (svc : Service)
      → IsClean (Lifecycle.suspend_checked out now reason svc)
  unfolding Lifecycle.suspend_checked
  suspend_checked-IsClean now reason svc =
      read_then-IsClean _ _ (check_move-Reads svc.status ServiceStatus.suspended) (
        read-IsClean _ _ (panel_context-Reads svc)
          λ cfg. read_then-IsClean _ _ (on_panel-Reads cfg _) (update_service-IsClean _))

  unsuspend_checked-IsClean : (svc : Service) → IsClean (Lifecycle.unsuspend_checked out svc)
  unfolding Lifecycle.unsuspend_checked
  unsuspend_checked-IsClean svc =
      read_then-IsClean _ _ (check_move-Reads svc.status ServiceStatus.active) (
        read-IsClean _ _ (panel_context-Reads svc)
          λ cfg. read_then-IsClean _ _ (on_panel-Reads cfg _) (update_service-IsClean _))

  delete_unused-IsSure :
      (cfg : ServerConfig) (pkg : Text) (r : Result Bool)
      → IsSure (Lifecycle.delete_unused out cfg pkg r)
  unfolding Lifecycle.delete_unused
  delete_unused-IsSure cfg pkg (ok false) = bind-IsSure _ _ (attempt-IsSure _) (λ r. pure-IsSure tt)
  delete_unused-IsSure cfg pkg (ok true) = pure-IsSure tt
  delete_unused-IsSure cfg pkg (err c) = pure-IsSure tt

  cleanup_dynamic_package-IsSure :
      (svc : Service) (cfg : ServerConfig) (pkg : Text)
      → IsSure (Lifecycle.cleanup_dynamic_package out svc cfg pkg)
  unfolding Lifecycle.cleanup_dynamic_package
  cleanup_dynamic_package-IsSure svc cfg pkg = elim (Option-cases svc.server_id) [
    | inl e ↦ rw (e, Lifecycle.cleanup_dynamic_package) (pure-IsSure tt)
    | inr (server, e) ↦
        rw (e, Lifecycle.cleanup_dynamic_package)
          (bind-IsSure _ _ (gets-IsSure _) λ others.
            if-IsSure _ _ _ (pure-IsSure tt)
              (bind-IsSure _ _ (attempt-IsSure _) (delete_unused-IsSure cfg pkg)))
  ]

  cleanup_on-IsSure :
      (cfg : Option ServerConfig) (svc : Service) → IsSure (Lifecycle.cleanup_on out cfg svc)
  unfolding Lifecycle.cleanup_on
  cleanup_on-IsSure none svc = pure-IsSure tt
  cleanup_on-IsSure (some cfg) svc = cleanup_dynamic_package-IsSure svc cfg _

  resolve_pending_cancellation-IsSure :
      (now : Time) (id : ℕ) → IsSure (Lifecycle.resolve_pending_cancellation out now id)
  unfolding Lifecycle.resolve_pending_cancellation
  resolve_pending_cancellation-IsSure now id =
      bind-IsSure _ _ (get_pending_by_service-IsSure id) λ found. elim (Option-cases found) [
        | inl e ↦ rw e (pure-IsSure tt)
        | inr (r, e) ↦ rw e (bind-IsSure _ _ (attempt-IsSure _) (λ u. pure-IsSure tt))
      ]

  cancel_unprovisioned-IsClean :
      (now : Time) (svc : Service) → IsClean (Lifecycle.cancel_unprovisioned out now svc)
  unfolding Lifecycle.cancel_unprovisioned
  cancel_unprovisioned-IsClean now svc =
      read_then-IsClean _ _ (check_move-Reads svc.status ServiceStatus.cancelled) (
        done_then-IsClean _ _ (update_service-IsClean _)
          (resolve_pending_cancellation-IsSure now svc.id))

  terminate_checked-IsClean :
      (now : Time) (svc : Service) → IsClean (Lifecycle.terminate_checked out now svc)
  unfolding Lifecycle.terminate_checked
  terminate_checked-IsClean now svc =
      read_then-IsClean _ _ (check_move-Reads svc.status ServiceStatus.terminated) (
        read-IsClean _ _ (panel_context-Reads svc) λ cfg.
          read_then-IsClean _ _ (on_panel-Reads cfg _) (
            done_then-IsClean _ _ (update_service-IsClean _) (
              then-IsSure _ _ (cleanup_on-IsSure cfg svc)
                (resolve_pending_cancellation-IsSure now svc.id))))

  idle : IsClean {A = Unit {0}} (pure tt)
  idle = sure-IsClean (pure tt) (pure-IsSure tt)

  provision_suspend-IsClean :
      (now : Time) (id : ℕ) (reason : Text) → IsClean (provision_suspend out now id reason)
  unfolding provision_suspend
  provision_suspend-IsClean now id reason = read-IsClean _ _ (get_service-Reads id) λ svc.
      if-IsClean (has_status svc ServiceStatus.suspended) _ _ idle
        (suspend_checked-IsClean now reason svc)

  provision_unsuspend-IsClean : (id : ℕ) → IsClean (provision_unsuspend out id)
  unfolding provision_unsuspend
  provision_unsuspend-IsClean id = read-IsClean _ _ (get_service-Reads id) λ svc.
      if-IsClean (has_status svc ServiceStatus.active) _ _ idle (unsuspend_checked-IsClean svc)

  terminate_by-IsClean :
      (now : Time) (svc : Service) (s : ServiceStatus)
      → IsClean (Lifecycle.terminate_by out now svc s)
  unfolding Lifecycle.terminate_by
  terminate_by-IsClean now svc ServiceStatus.terminated = idle
  terminate_by-IsClean now svc ServiceStatus.cancelled = idle
  terminate_by-IsClean now svc ServiceStatus.pending = cancel_unprovisioned-IsClean now svc
  terminate_by-IsClean now svc ServiceStatus.active = terminate_checked-IsClean now svc
  terminate_by-IsClean now svc ServiceStatus.suspended = terminate_checked-IsClean now svc

  provision_terminate-IsClean : (now : Time) (id : ℕ) → IsClean (provision_terminate out now id)
  unfolding provision_terminate
  provision_terminate-IsClean now id =
      read-IsClean _ _ (get_service-Reads id) (λ svc. terminate_by-IsClean now svc svc.status)

other_job : ◌≢◌ {A = Bool} false true
other_job k = cc

-- A suspension, an unsuspension or a termination.
abbrev pub ends_or_pauses : PanelJob → Bool
ends_or_pauses (PanelJob.suspend now id reason) = true
ends_or_pauses (PanelJob.unsuspend id) = true
ends_or_pauses (PanelJob.terminate now id) = true
ends_or_pauses _ = false

-- A suspension, an unsuspension or a termination that ends in an error, whether of the state machine,
-- the panel or the store, leaves the store as it was.
pub refused_job :
    (out : Outside) (j : PanelJob) (w : World) (c : Code)
    → ends_or_pauses j ≡ true
    → (run_panel_job out j w).0 ≡ err c
    → (run_panel_job out j w).1.db ≡ w.db
unfolding run_panel_job
refused_job out (PanelJob.suspend now id reason) w c k e =
    (provision_suspend-IsClean out now id reason).at w c e
refused_job out (PanelJob.unsuspend id) w c k e = (provision_unsuspend-IsClean out id).at w c e
refused_job out (PanelJob.terminate now id) w c k e =
    (provision_terminate-IsClean out now id).at w c e
refused_job out (PanelJob.set_up today id) w c k e = absurd (other_job k)
refused_job out (PanelJob.change_package id) w c k e = absurd (other_job k)
