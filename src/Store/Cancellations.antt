-- ===== src/Store/Cancellations.antt =====
-- backend/internal/modules/provisioning/cancellation_repo.go: the cancellation requests of services.
use whcms.Base.{
  ℕ, suc, Bool, ◌&&◌, Option, List, [], ◌∷◌, ◌++◌, ◌==◌, if◌then◌else◌, any, find, same, map,
}
use whcms.Base.Action.{Action, ok, err, Code, ◌>>=◌, or_raise, gets}
use whcms.Domain.Enums.{CancellationRequestStatus, CancellationRequestStatus-discrete}
use whcms.Store.Tables.{Db, CancellationRequest}

abbrev pub is_pending_for : ℕ → CancellationRequest → Bool
is_pending_for service r =
    r.service_id == service
    && same CancellationRequestStatus-discrete r.status CancellationRequestStatus.pending

unfoldable pub get_pending_by_service : ℕ → Action Db (Option CancellationRequest)
get_pending_by_service service = gets λ db. find (is_pending_for service) db.cancellation_requests

unfoldable pub get_cancellation_request : ℕ → Action Db CancellationRequest
get_cancellation_request id = do
  found ← gets λ db. find (λ (r : CancellationRequest). r.id == id) db.cancellation_requests
  or_raise found Code.not_found

abbrev pub conflicts : CancellationRequest → List CancellationRequest → Bool
conflicts r rows =
    same CancellationRequestStatus-discrete r.status CancellationRequestStatus.pending
    && any (is_pending_for r.service_id) rows

-- The partial unique index allows one pending row for a service.
unfoldable pub create_cancellation_request : CancellationRequest → Action Db ℕ
create_cancellation_request r db =
    if conflicts r db.cancellation_requests then (err Code.conflict, db) else (
      ok db.next_cancellation_request,
      record db {
        cancellation_requests =
            db.cancellation_requests ++ (record r { id = db.next_cancellation_request } ∷ []);
        next_cancellation_request = suc db.next_cancellation_request;
      },
    )

-- `UPDATE ... WHERE id = $1` on the decision's columns.
abbrev pub decided : CancellationRequest → CancellationRequest → CancellationRequest
decided new old =
    if old.id == new.id
    then record old {
      status = new.status;
      decided_at = new.decided_at;
      decided_by = new.decided_by;
    }
    else old

unfoldable pub update_cancellation_request : CancellationRequest → Action Db (Unit {0})
update_cancellation_request new db =
    if any (λ (r : CancellationRequest). r.id == new.id) db.cancellation_requests
    then (ok tt, record db { cancellation_requests = map (decided new) db.cancellation_requests })
    else (err Code.not_found, db)
