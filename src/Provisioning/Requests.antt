-- ===== src/Provisioning/Requests.antt =====
-- Runs of `CancelService`, `AcceptCancellationRequest`, `RejectCancellationRequest` and
-- `ProvisionTerminate` of backend/internal/modules/provisioning/service.go.
use whcms.Base.{ℕ, refl, List, [], ◌∷◌, inl, inr, Option-cases}
use whcms.Base.Action.{Action, ◌>>◌, pure, attempt}
use whcms.Base.Keeps.{Keeps, keeps_rules, pure-Keeps, raise_if-Keeps, bind-Keeps, then-Keeps}
use whcms.Base.Each.{attempt-Keeps}
use whcms.Domain.Enums.{
  CancellationRequestStatus, CancellationRequestStatus-discrete, CancelMode, ServiceStatus,
}
use whcms.Domain.Calendar.{Time}
use whcms.Store.Tables.{Service, CancellationRequest}
use whcms.Provisioning.World.{World, Outside}
use whcms.Provisioning.Lifecycle
use whcms.Provisioning.Lifecycle.{provision_terminate}
use whcms.Provisioning.Cancellation.{
  begin_cancellation, cancel_service, decide, accept_cancellation_request,
  reject_cancellation_request,
}
use whcms.Provisioning.Frames.{
  Stored, on_db-Keeps, lift_result-Keeps, enqueue-Keeps, get_service-Keeps,
  get_pending_by_service-Keeps, panel_context-Keeps,
}
use whcms.Provisioning.Panels.{on_panel-Keeps, cleanup_on-Keeps}
use whcms.Provisioning.OnePending.{
  IsOnePending, create_cancellation_request-IsOnePending, update_cancellation_request-IsOnePending,
  update_service-IsOnePending, cancel_open_renewal_invoices-IsOnePending, get_owned-Keeps,
  get_cancellation_request-Keeps,
}

-- What happens to the requests: the client asks (or the operator, as client 0), the operator decides,
-- and a worker takes a termination from the queue.
pub data CancelStep : Type 0 where
  ask : ℕ → ℕ → CancelMode → CancelStep
  accept reject : Time → ℕ → ℕ → CancelStep
  terminate : Time → ℕ → CancelStep

module _ (out : Outside) where
  unfoldable pub run_cancel_step : CancelStep → Action World (Unit {0})
  run_cancel_step (CancelStep.ask client id mode) = cancel_service out client id mode >> pure tt
  run_cancel_step (CancelStep.accept now actor request) =
      accept_cancellation_request out now actor request
  run_cancel_step (CancelStep.reject now actor request) =
      reject_cancellation_request out now actor request
  run_cancel_step (CancelStep.terminate now id) = provision_terminate out now id

  unfoldable pub run_cancel_steps : List CancelStep → Action World (Unit {0})
  run_cancel_steps [] = pure tt
  run_cancel_steps (s ∷ rest) = attempt (run_cancel_step s) >> run_cancel_steps rest

  begin_cancellation-IsOnePending :
      (mode : CancelMode) (svc : Service)
      → Keeps (Stored IsOnePending) (begin_cancellation out mode svc)
  unfolding begin_cancellation
  begin_cancellation-IsOnePending CancelMode.immediate svc =
      then-Keeps _ _ (on_db-Keeps _ (cancel_open_renewal_invoices-IsOnePending svc))
        (enqueue-Keeps out _)
  begin_cancellation-IsOnePending CancelMode.end_of_term svc = pure-Keeps tt

  cancel_service-IsOnePending :
      (client id : ℕ) (mode : CancelMode)
      → Keeps (Stored IsOnePending) (cancel_service out client id mode)
  unfolding cancel_service
  cancel_service-IsOnePending client id mode =
      search
        (
          keeps_rules, on_db-Keeps, get_owned-Keeps, get_pending_by_service-Keeps,
          begin_cancellation-IsOnePending, create_cancellation_request-IsOnePending,
        )
        depth 20

  decide-IsOnePending :
      (r : CancellationRequest) (to : CancellationRequestStatus)
      → Keeps (Stored IsOnePending) (decide out r to)
  unfolding decide
  decide-IsOnePending r to = search (keeps_rules, lift_result-Keeps) depth 20

  accept_cancellation_request-IsOnePending :
      (now : Time) (actor request : ℕ)
      → Keeps (Stored IsOnePending) (accept_cancellation_request out now actor request)
  unfolding accept_cancellation_request CancellationRequestStatus-discrete
  accept_cancellation_request-IsOnePending now actor request =
      bind-Keeps _ _ (on_db-Keeps _ (get_cancellation_request-Keeps request)) λ r.
        then-Keeps _ _ (decide-IsOnePending r _) (
          bind-Keeps _ _ (on_db-Keeps _ (get_service-Keeps _)) λ svc.
            then-Keeps _ _ (raise_if-Keeps _ _) (
              then-Keeps _ _ (on_db-Keeps _ (update_service-IsOnePending _))
                (on_db-Keeps _ (update_cancellation_request-IsOnePending _ refl))))

  reject_cancellation_request-IsOnePending :
      (now : Time) (actor request : ℕ)
      → Keeps (Stored IsOnePending) (reject_cancellation_request out now actor request)
  unfolding reject_cancellation_request CancellationRequestStatus-discrete
  reject_cancellation_request-IsOnePending now actor request =
      bind-Keeps _ _ (on_db-Keeps _ (get_cancellation_request-Keeps request)) λ r.
        then-Keeps _ _ (decide-IsOnePending r _)
          (on_db-Keeps _ (update_cancellation_request-IsOnePending _ refl))

  resolve_pending_cancellation-IsOnePending :
      (now : Time) (id : ℕ)
      → Keeps (Stored IsOnePending) (Lifecycle.resolve_pending_cancellation out now id)
  unfolding Lifecycle.resolve_pending_cancellation CancellationRequestStatus-discrete
  resolve_pending_cancellation-IsOnePending now id =
      bind-Keeps _ _ (on_db-Keeps _ (get_pending_by_service-Keeps id)) λ found.
        elim (Option-cases found) [
          | inl e ↦ rw e (pure-Keeps tt)
          | inr (r, e) ↦ rw e (
              bind-Keeps _ _
                (attempt-Keeps _ (on_db-Keeps _ (update_cancellation_request-IsOnePending _ refl)))
                (λ u. pure-Keeps tt))
        ]

  check_move-IsOnePending :
      (from to : ServiceStatus) → Keeps (Stored IsOnePending) (Lifecycle.check_move from to)
  unfolding Lifecycle.check_move
  check_move-IsOnePending from to = lift_result-Keeps _

  terminate_checked-IsOnePending :
      (now : Time) (svc : Service)
      → Keeps (Stored IsOnePending) (Lifecycle.terminate_checked out now svc)
  unfolding Lifecycle.terminate_checked
  terminate_checked-IsOnePending now svc =
      search
        (
          keeps_rules, check_move-IsOnePending, on_db-Keeps, panel_context-Keeps, on_panel-Keeps,
          update_service-IsOnePending, cleanup_on-Keeps, resolve_pending_cancellation-IsOnePending,
        )
        depth 20

  terminate_by-IsOnePending :
      (now : Time) (svc : Service) (s : ServiceStatus)
      → Keeps (Stored IsOnePending) (Lifecycle.terminate_by out now svc s)
  unfolding Lifecycle.terminate_by Lifecycle.cancel_unprovisioned
  terminate_by-IsOnePending now svc ServiceStatus.terminated = pure-Keeps tt
  terminate_by-IsOnePending now svc ServiceStatus.cancelled = pure-Keeps tt
  terminate_by-IsOnePending now svc ServiceStatus.pending =
      search
        (
          keeps_rules, check_move-IsOnePending, on_db-Keeps, update_service-IsOnePending,
          resolve_pending_cancellation-IsOnePending,
        )
        depth 20
  terminate_by-IsOnePending now svc ServiceStatus.active = terminate_checked-IsOnePending now svc
  terminate_by-IsOnePending now svc ServiceStatus.suspended = terminate_checked-IsOnePending now svc

  run_cancel_step-IsOnePending : (s : CancelStep) → Keeps (Stored IsOnePending) (run_cancel_step s)
  unfolding run_cancel_step provision_terminate
  run_cancel_step-IsOnePending (CancelStep.ask client id mode) =
      then-Keeps _ _ (cancel_service-IsOnePending client id mode) (pure-Keeps tt)
  run_cancel_step-IsOnePending (CancelStep.accept now actor request) =
      accept_cancellation_request-IsOnePending now actor request
  run_cancel_step-IsOnePending (CancelStep.reject now actor request) =
      reject_cancellation_request-IsOnePending now actor request
  run_cancel_step-IsOnePending (CancelStep.terminate now id) =
      bind-Keeps _ _ (on_db-Keeps _ (get_service-Keeps id))
        (λ svc. terminate_by-IsOnePending now svc svc.status)

  steps-IsOnePending :
      (steps : List CancelStep) → Keeps (Stored IsOnePending) (run_cancel_steps steps)
  unfolding run_cancel_steps
  steps-IsOnePending [] = pure-Keeps tt
  steps-IsOnePending (s ∷ rest) =
      then-Keeps _ _ (attempt-Keeps _ (run_cancel_step-IsOnePending s)) (steps-IsOnePending rest)

  -- From a store in which every service has at most one pending cancellation request, every store that
  -- these calls lead to is one, whichever of them fail.
  pub run_cancel_steps-IsOnePending :
      (steps : List CancelStep) (w : World)
      → IsOnePending w.db
      → IsOnePending (run_cancel_steps steps w).1.db
  run_cancel_steps-IsOnePending steps w v =
      ((steps-IsOnePending steps).at w (record { held = v })).held
