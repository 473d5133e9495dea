-- ===== src/Provisioning/Cancellation.antt =====
-- `CancelService`, `AcceptCancellationRequest`, `RejectCancellationRequest` and
-- `cancelOpenRenewalInvoices` of backend/internal/modules/provisioning/service.go. The request's body
-- is one that its validation lets through; audit entries and the reason's text are left out.
use whcms.Base.{
  ℕ, Bool, true, false, not, ◌&&◌, ◌||◌, Option, none, some, List, [], ◌∷◌, ◌==◌, if◌then◌else◌,
  any, select, same, map,
}
use whcms.Base.Action.{Action, Code, ◌>>=◌, ◌>>◌, pure, raise_if}
use whcms.Domain.Enums.{
  ServiceStatus, CancelMode, CancelMode-discrete, CancellationRequestStatus, InvoiceStatus,
  RelatedType,
}
use whcms.Domain.Calendar.{Time}
use whcms.Domain.StateMachine.{transition_cancellation_request}
use whcms.Store.Tables.{Db, Service, Invoice, InvoiceItem, CancellationRequest}
use whcms.Store.Invoices.{list_by_client, get_items_by_invoice_ids, update_status, points_at}
use whcms.Store.Services.{get_service, update_service}
use whcms.Store.Cancellations.{
  get_pending_by_service, get_cancellation_request, create_cancellation_request,
  update_cancellation_request,
}
use whcms.Billing.Cancel.{move_invoice}
use whcms.Provisioning.World.{World, Outside, on_db, lift_result, enqueue}
use whcms.Provisioning.Lifecycle.{has_status}
use whcms.Provisioning.Renewal.{Job}

-- A client of 0 is the operator.
unfoldable pub get_owned : ℕ → ℕ → Action Db Service
get_owned client id = do
  svc ← get_service id
  raise_if (not (client == 0) && not (svc.client_id == client)) Code.not_found
  pure svc

-- The invoice has a renewal line of this service.
abbrev pub renews : ℕ → ℕ → List InvoiceItem → Bool
renews id invoice items =
    any (points_at RelatedType.service_renewal id) (select (λ it. it.invoice_id == invoice) items)

-- The loop over the invoices of one status.
unfoldable pub cancel_renewals : ℕ → List InvoiceItem → List Invoice → Action Db (Unit {0})
cancel_renewals id items [] = pure tt
cancel_renewals id items (inv ∷ rest) =
    (if renews id inv.id items
      then move_invoice inv.status InvoiceStatus.cancelled
        >> update_status inv.id InvoiceStatus.cancelled none
      else pure tt)
    >> cancel_renewals id items rest

unfoldable pub cancel_renewals_in : Service → InvoiceStatus → Action Db (Unit {0})
cancel_renewals_in svc status = do
  invoices ← list_by_client svc.client_id status
  items ← get_items_by_invoice_ids (map (λ (inv : Invoice). inv.id) invoices)
  cancel_renewals svc.id items invoices

unfoldable pub cancel_open_renewal_invoices : Service → Action Db (Unit {0})
cancel_open_renewal_invoices svc =
    cancel_renewals_in svc InvoiceStatus.unpaid >> cancel_renewals_in svc InvoiceStatus.overdue

abbrev pub is_running : Service → Bool
is_running svc = has_status svc ServiceStatus.active || has_status svc ServiceStatus.suspended

abbrev pub is_cancellable : CancelMode → Service → Bool
is_cancellable mode svc =
    is_running svc
    || has_status svc ServiceStatus.pending && same CancelMode-discrete mode CancelMode.immediate

abbrev pub has_request : Option CancellationRequest → Bool
has_request none = false
has_request (some r) = true

abbrev request_of : CancelMode → Service → CancellationRequest
request_of mode svc = record {
  id = 0;
  service_id = svc.id;
  client_id = svc.client_id;
  mode = mode;
  status = CancellationRequestStatus.pending;
  decided_at = none;
  decided_by = none;
}

abbrev pub settled_by :
    CancellationRequestStatus → Time → ℕ → CancellationRequest → CancellationRequest
settled_by s now actor r = record r { status = s; decided_at = some now; decided_by = some actor }

module _ (out : Outside) where
  open out use {with_cancel_at_period_end}

  unfoldable pub begin_cancellation : CancelMode → Service → Action World (Unit {0})
  begin_cancellation CancelMode.immediate svc =
      on_db (cancel_open_renewal_invoices svc) >> enqueue out (Job.provision_terminate svc.id)
  begin_cancellation CancelMode.end_of_term svc = pure tt

  unfoldable pub cancel_service : ℕ → ℕ → CancelMode → Action World Service
  cancel_service client id mode = do
    svc ← on_db (get_owned client id)
    raise_if (not (is_cancellable mode svc)) Code.conflict
    pending ← on_db (get_pending_by_service svc.id)
    raise_if (has_request pending) Code.conflict
    begin_cancellation mode svc
    on_db (create_cancellation_request (request_of mode svc))
    pure svc

  unfoldable pub decide : CancellationRequest → CancellationRequestStatus → Action World (Unit {0})
  decide r to =
      raise_if (not (same CancelMode-discrete r.mode CancelMode.end_of_term)) Code.conflict
      >> lift_result (transition_cancellation_request r.status to)
      >> pure tt

  unfoldable pub accept_cancellation_request : Time → ℕ → ℕ → Action World (Unit {0})
  accept_cancellation_request now actor request = do
    r ← on_db (get_cancellation_request request)
    decide r CancellationRequestStatus.accepted
    svc ← on_db (get_service r.service_id)
    raise_if (not (is_running svc)) Code.conflict
    on_db (update_service (record svc { panel_meta = with_cancel_at_period_end svc.panel_meta }))
    on_db (update_cancellation_request (settled_by CancellationRequestStatus.accepted now actor r))

  unfoldable pub reject_cancellation_request : Time → ℕ → ℕ → Action World (Unit {0})
  reject_cancellation_request now actor request = do
    r ← on_db (get_cancellation_request request)
    decide r CancellationRequestStatus.rejected
    on_db (update_cancellation_request (settled_by CancellationRequestStatus.rejected now actor r))
