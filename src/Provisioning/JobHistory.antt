-- ===== src/Provisioning/JobHistory.antt =====
-- The status of a service through `ProvisionSuspend`, `ProvisionUnsuspend` and `ProvisionTerminate` of
-- backend/internal/modules/provisioning/service.go.
use whcms.Base.{ℕ, ◌≡◌, refl, Option, inl, inr, Bool-cases, Option-cases, arith, any, ◌==◌}
use whcms.Base.Text.{Text}
use whcms.Base.Action.{Action, ok, ◌>>=◌, ◌>>◌, pure}
use whcms.Base.Keeps.{Keeps, keeps_rules, pure-Keeps, bind-Keeps, then-Keeps}
use whcms.Base.Each.{attempt-Keeps}
use whcms.Base.Leads.{Runs, Leads, bind-Leads, first-Leads, if-Leads}
use whcms.Domain.Enums.{ServiceStatus}
use whcms.Domain.Calendar.{Time}
use whcms.Domain.StateMachine.{transition_service, service_can_transition}
use whcms.Store.Tables.{Service, CancellationRequest}
use whcms.Store.Cancellations.{update_cancellation_request}
use whcms.Provisioning.World.{World, Outside, lift_result}
use whcms.Provisioning.Lifecycle
use whcms.Provisioning.Lifecycle.{has_status}
use whcms.Provisioning.Frames.{
  Stored, on_db-Keeps, lift_result-Keeps, get_pending_by_service-Keeps, panel_context-Keeps,
}
use whcms.Provisioning.Panels.{on_panel-Keeps, cleanup_on-Keeps}
use whcms.Provisioning.History.{IsLater, HasRead, read-Keeps, between, stops, write-Leads, weaken}

-- A change of status that the code has asked the state machine about.
move_known :
    (from to s : ServiceStatus)
    → transition_service from to ≡ ok s
    → transition_service from to ≡ ok to
unfolding transition_service service_can_transition
move_known from to s h = ground (arith, h)

module _ (out : Outside) (before : ℕ → Option Service) where
  -- The state machine is asked first, and the job goes on only if it allows the change.
  pub after_check {κ} :
      {B : Type κ} {id : ℕ} {status : ServiceStatus} (to : ServiceStatus) (m : Action World B)
      → (transition_service status to ≡ ok to
          → Leads (Stored (HasRead before id status)) (Stored (IsLater before)) m)
      → Leads
          (Stored (HasRead before id status))
          (Stored (IsLater before))
          (Lifecycle.check_move status to >> m)
  unfolding Lifecycle.check_move ◌>>◌ lift_result
  after_check {id = id} {status = status} to m hm =
      let asked : Runs (Stored (HasRead before id status))
          (λ (s : ServiceStatus). transition_service status to ≡ ok to)
          (Lifecycle.check_move status to) =
        record {
          keeps = lift_result-Keeps (transition_service status to);
          yields = λ w s e. move_known status to s e;
        } in
      bind-Leads (Lifecycle.check_move status to) (λ s. m) (weaken before id status) asked
        (λ s e. hm e)

  pub next {κ ρ} :
      {A : Type κ} {B : Type ρ} {id : ℕ} {status : ServiceStatus} (m : Action World A)
      (n : Action World B)
      → Keeps (Stored (HasRead before id status)) m
      → Leads (Stored (HasRead before id status)) (Stored (IsLater before)) n
      → Leads (Stored (HasRead before id status)) (Stored (IsLater before)) (m >> n)
  unfolding ◌>>◌
  next m n hm hn = between before m (λ a. n) hm (λ a. hn)

  pub settled {κ ρ} :
      {A : Type κ} {B : Type ρ} {id : ℕ} {status : ServiceStatus} (m : Action World A)
      (n : Action World B)
      → Leads (Stored (HasRead before id status)) (Stored (IsLater before)) m
      → Keeps (Stored (IsLater before)) n
      → Leads (Stored (HasRead before id status)) (Stored (IsLater before)) (m >> n)
  unfolding ◌>>◌
  settled m n hm hn = first-Leads m (λ a. n) hm (λ a. hn)

  pub with_read {κ ρ} :
      {A : Type κ} {B : Type ρ} {id : ℕ} {status : ServiceStatus} (m : Action World A)
      → (f : A → Action World B) → Keeps (Stored (HasRead before id status)) m
      → ((a : A) → Leads (Stored (HasRead before id status)) (Stored (IsLater before)) (f a))
      → Leads (Stored (HasRead before id status)) (Stored (IsLater before)) (m >>= f)
  with_read m f hm hf = between before m f hm hf

  suspend_checked-Leads :
      (now : Time) (reason : Text) (svc : Service)
      → Leads
          (Stored (HasRead before svc.id svc.status))
          (Stored (IsLater before))
          (Lifecycle.suspend_checked out now reason svc)
  unfolding Lifecycle.suspend_checked
  suspend_checked-Leads now reason svc = after_check ServiceStatus.suspended _ λ e.
      let written =
        write-Leads before svc (Lifecycle.suspended now out.with_suspended_at reason svc) refl e in
      search (with_read, next, on_panel-Keeps, on_db-Keeps, panel_context-Keeps, written) depth 20

  pub unchanged :
      {id : ℕ} {status : ServiceStatus}
      → Leads {A = Unit {0}} (Stored (HasRead before id status)) (Stored (IsLater before)) (pure tt)
  unchanged = stops before (pure tt) (pure-Keeps tt)

  pub provision_suspend-IsLater :
      (now : Time) (id : ℕ) (reason : Text)
      → Keeps (Stored (IsLater before)) (Lifecycle.provision_suspend out now id reason)
  unfolding Lifecycle.provision_suspend
  provision_suspend-IsLater now id reason = read-Keeps before id _ λ svc.
      if-Leads (has_status svc ServiceStatus.suspended) _ _ unchanged
        (suspend_checked-Leads now reason svc)

  unsuspend_checked-Leads :
      (svc : Service)
      → Leads
          (Stored (HasRead before svc.id svc.status))
          (Stored (IsLater before))
          (Lifecycle.unsuspend_checked out svc)
  unfolding Lifecycle.unsuspend_checked
  unsuspend_checked-Leads svc = after_check ServiceStatus.active _ λ e.
      let written =
        write-Leads before svc (Lifecycle.unsuspended out.without_suspended_at svc) refl e in
      search (with_read, next, on_panel-Keeps, on_db-Keeps, panel_context-Keeps, written) depth 20

  pub provision_unsuspend-IsLater :
      (id : ℕ) → Keeps (Stored (IsLater before)) (Lifecycle.provision_unsuspend out id)
  unfolding Lifecycle.provision_unsuspend
  provision_unsuspend-IsLater id = read-Keeps before id _ λ svc.
      if-Leads (has_status svc ServiceStatus.active) _ _ unchanged (unsuspend_checked-Leads svc)

  update_cancellation_request-IsLater :
      (r : CancellationRequest) → Keeps (IsLater before) (update_cancellation_request r)
  unfolding update_cancellation_request
  update_cancellation_request-IsLater r = record {
    at = λ db v.
        elim (Bool-cases
          (any (λ (q : CancellationRequest). q.id == r.id) db.cancellation_requests)) [
            | inl e ↦
                rw (e, update_cancellation_request) (record { keyed = v.keyed; moved = v.moved })
            | inr e ↦ rw (e, update_cancellation_request) v
          ];
  }

  resolve_pending_cancellation-IsLater :
      (now : Time) (id : ℕ)
      → Keeps (Stored (IsLater before)) (Lifecycle.resolve_pending_cancellation out now id)
  unfolding Lifecycle.resolve_pending_cancellation
  resolve_pending_cancellation-IsLater now id =
      bind-Keeps _ _ (on_db-Keeps _ (get_pending_by_service-Keeps id)) λ found.
        elim (Option-cases found) [
          | inl e ↦ rw e (pure-Keeps tt)
          | inr (r, e) ↦ rw e (
              search (keeps_rules, attempt-Keeps, on_db-Keeps, update_cancellation_request-IsLater))
        ]

  cancel_unprovisioned-Leads :
      (now : Time) (svc : Service)
      → Leads
          (Stored (HasRead before svc.id svc.status))
          (Stored (IsLater before))
          (Lifecycle.cancel_unprovisioned out now svc)
  unfolding Lifecycle.cancel_unprovisioned
  cancel_unprovisioned-Leads now svc = after_check ServiceStatus.cancelled _ λ e.
      settled _ _ (write-Leads before svc (Lifecycle.ended ServiceStatus.cancelled now svc) refl e)
        (resolve_pending_cancellation-IsLater now svc.id)

  terminate_checked-Leads :
      (now : Time) (svc : Service)
      → Leads
          (Stored (HasRead before svc.id svc.status))
          (Stored (IsLater before))
          (Lifecycle.terminate_checked out now svc)
  unfolding Lifecycle.terminate_checked
  terminate_checked-Leads now svc = after_check ServiceStatus.terminated _ λ e.
      let written =
        write-Leads before svc (Lifecycle.ended ServiceStatus.terminated now svc) refl e in
      with_read _ _ (on_db-Keeps _ (panel_context-Keeps out svc)) λ cfg.
        next _ _ (on_panel-Keeps out cfg _) (
          settled _ _ written (
            then-Keeps _ _ (cleanup_on-Keeps out cfg svc)
              (resolve_pending_cancellation-IsLater now svc.id)))

  terminate_by-Leads :
      (now : Time) (svc : Service) (s : ServiceStatus)
      → Leads
          (Stored (HasRead before svc.id svc.status))
          (Stored (IsLater before))
          (Lifecycle.terminate_by out now svc s)
  unfolding Lifecycle.terminate_by
  terminate_by-Leads now svc ServiceStatus.terminated = unchanged
  terminate_by-Leads now svc ServiceStatus.cancelled = unchanged
  terminate_by-Leads now svc ServiceStatus.pending = cancel_unprovisioned-Leads now svc
  terminate_by-Leads now svc ServiceStatus.active = terminate_checked-Leads now svc
  terminate_by-Leads now svc ServiceStatus.suspended = terminate_checked-Leads now svc

  pub provision_terminate-IsLater :
      (now : Time) (id : ℕ)
      → Keeps (Stored (IsLater before)) (Lifecycle.provision_terminate out now id)
  unfolding Lifecycle.provision_terminate
  provision_terminate-IsLater now id =
      read-Keeps before id _ (λ svc. terminate_by-Leads now svc svc.status)
