-- ===== src/Provisioning/Accepted.antt =====
-- About the service of an accepted request: `AcceptCancellationRequest` and `AutoTerminate` of
-- backend/internal/modules/provisioning/service.go, and the renewal invoices of
-- backend/internal/modules/billing/service.go.
use whcms.Base.{
  ℕ, ◌≡◌, refl, ap, ◌∙◌, subst, Bool, true, ◌&&◌, ◌||◌, Option, none, some, arith, ◌==◌, find, ltb,
}
use whcms.Base.Text.{Text}
use whcms.Base.Float.{Float}
use whcms.Base.Action.{
  Result, ok, Code, ◌>>=◌, pure, or_raise, gets, bind_ok, within_tx, rollback_ok,
}
use whcms.Base.Keeps.{Keeps, keeps_rules}
use whcms.Base.Leads.{Leads, then-Arrives, last-Arrives}
use whcms.Domain.Enums.{CancellationRequestStatus}
use whcms.Domain.Calendar.{Time, day_number}
use whcms.Store.Tables.{Db, Service, CancellationRequest}
use whcms.Store.Listing.{under, passes}
use whcms.Store.Services.{update_service, due_by}
use whcms.Store.Cancellations.{get_cancellation_request, update_cancellation_request}
use whcms.Billing.Create.{Settings}
use whcms.Billing.Renewals.{
  Renewal, SkipReason, generate_service_renewal_invoice, renew_service_due, service_renewable,
  service_renewal_in_tx, panel_meta_cancel_at_period_end,
}
use whcms.Billing.RenewedOnce.{service_renewal_in_tx_found}
use whcms.Provisioning.World.{World, Outside, on_db}
use whcms.Provisioning.Cancellation.{accept_cancellation_request, decide, is_running, settled_by}
use whcms.Provisioning.Frames.{Stored, on_db-Keeps, lift_result-Keeps}
use whcms.Provisioning.Rows.{HasRow, read_row, guarded}
use whcms.Provisioning.History.{put_hit}
use whcms.Provisioning.Schedule.{auto_terminate, is_terminatable}
use whcms.Provisioning.Enqueued.{terminates, auto_terminate_lem}

-- The row of the service, and that it is active or suspended.
record IsMarked (id : ℕ) (new : Service) (db : Db) : Type 0 where
  found : db.services id ≡ some new
  running : is_running new ≡ true

update_cancellation_request-IsMarked :
    (id : ℕ) (new : Service) (r : CancellationRequest)
    → Keeps (IsMarked id new) (update_cancellation_request r)
unfolding update_cancellation_request
update_cancellation_request-IsMarked id new r = record {
  at = λ db v. record { found = ground (arith, v.found); running = v.running };
}

marked :
    (id : ℕ) (svc new : Service)
    → new.id ≡ id
    → is_running new ≡ true
    → Leads (Stored (HasRow id svc)) (Stored (IsMarked id new)) (on_db (update_service new))
unfolding on_db update_service
marked id svc new same_one runs = record {
  at = λ w v.
      let found : w.db.services new.id ≡ some svc = ap w.db.services same_one ∙ v.held.there in
      rw (found, update_service)
        (record {
          held = record {
            found = put_hit w.db.services new.id id new (ground (arith, same_one));
            running = runs;
          };
        });
}

found_request :
    (id : ℕ) (r : CancellationRequest) (w : World)
    → find (λ (q : CancellationRequest). q.id == id) w.db.cancellation_requests ≡ some r
    → on_db (get_cancellation_request id) w ≡ (ok r, w)
unfolding on_db get_cancellation_request ◌>>=◌ gets
found_request id r w e =
    ap
      (λ (o : Option CancellationRequest).
        ((or_raise o Code.not_found w.db).0, record w { db = (or_raise o Code.not_found w.db).1 }))
      e

module _ (out : Outside) (now : Time) (actor : ℕ) where
  abbrev pub to_end : Service → Service
  to_end svc = record svc { panel_meta = out.with_cancel_at_period_end svc.panel_meta }

  decide-Keeps {μ} :
      {P : Db → Type μ} (r : CancellationRequest) (to : CancellationRequestStatus)
      → Keeps (Stored P) (decide out r to)
  unfolding decide
  decide-Keeps r to = search (keeps_rules, lift_result-Keeps) depth 20

  accepted_row :
      (request : ℕ) (svc : Service) (r : CancellationRequest) (w : World)
      → find (λ (q : CancellationRequest). q.id == request) w.db.cancellation_requests ≡ some r
      → w.db.services r.service_id ≡ some svc
      → svc.id ≡ r.service_id
      → (accept_cancellation_request out now actor request w).0 ≡ ok tt
      → IsMarked r.service_id
          (to_end svc)
          (accept_cancellation_request out now actor request w).1.db
  unfolding accept_cancellation_request
  accepted_row request svc r w asked there same_one =
      let arrives = then-Arrives _ _ (decide-Keeps r CancellationRequestStatus.accepted) (
        read_row r.service_id svc _ (
          guarded (is_running svc) Code.conflict _ λ runs.
            last-Arrives _ _ (marked r.service_id svc (to_end svc) same_one runs) (
              on_db-Keeps _ (
                update_cancellation_request-IsMarked r.service_id (to_end svc)
                  (settled_by CancellationRequestStatus.accepted now actor r))))) in
      rw
        (bind_ok (on_db (get_cancellation_request request)) _ w r w
          (found_request request r w asked))
        (λ e. (arrives.at w tt (record { held = record { there = there } }) e).held)

  abbrev pub skip_reason : Option Time → SkipReason
  skip_reason none = SkipReason.not_eligible
  skip_reason (some due) = SkipReason.cancel_at_period_end

  module _ (decode : Text → Option Bool) where
    no_renewal :
        (f : Float) (settings : Settings) (today : Time) (svc : Service) (due : Option Time)
        (db : Db)
        → panel_meta_cancel_at_period_end decode svc.panel_meta ≡ true
        → renew_service_due f settings today decode svc due db
          ≡ (ok (Renewal.skipped (skip_reason due)), db)
    unfolding renew_service_due pure
    no_renewal f settings today svc none db e = refl
    no_renewal f settings today svc (some due) db e = rw e refl

    -- Where the mark that is written into panel_meta can be read again: after an accepted request no
    -- renewal invoice is made for the service; the call says why and changes nothing.
    pub accepted_not_renewed :
        (f : Float) (settings : Settings) (today : Time) (request : ℕ) (svc : Service)
        (r : CancellationRequest) (w : World)
        → ((meta : Text)
            → panel_meta_cancel_at_period_end decode (out.with_cancel_at_period_end meta) ≡ true)
        → find (λ (q : CancellationRequest). q.id == request) w.db.cancellation_requests ≡ some r
        → w.db.services r.service_id ≡ some svc
        → svc.id ≡ r.service_id
        → (accept_cancellation_request out now actor request w).0 ≡ ok tt
        → (let db = (accept_cancellation_request out now actor request w).1.db in
            generate_service_renewal_invoice f settings today decode r.service_id db ≡ (
              ok (
                  Renewal.skipped (
                    skip_reason
                      (service_renewable svc.status svc.next_due_date svc.recurring_amount))),
              db,
            ))
    unfolding generate_service_renewal_invoice within_tx
    accepted_not_renewed f settings today request svc r w law asked there same_one e =
        let db = (accept_cancellation_request out now actor request w).1.db in
        let v = accepted_row request svc r w asked there same_one e in
        let due = service_renewable svc.status svc.next_due_date svc.recurring_amount in
        let here : db.services (to_end svc).id ≡ some (to_end svc) =
          ap db.services same_one ∙ v.found in
        subst
          (λ id.
            generate_service_renewal_invoice f settings today decode id db
            ≡ (ok (Renewal.skipped (skip_reason due)), db))
          same_one
          (rollback_ok (service_renewal_in_tx f settings today decode (to_end svc).id) db _ db (
            service_renewal_in_tx_found f settings today decode (to_end svc) db here
            ∙ no_renewal f settings today (to_end svc) due db (law svc.panel_meta)))

    over_now :
        (suspended_at : Text → Option Time) (updated_at : ℕ → Time) (later : Time) (days : ℕ)
        (s : Service)
        → is_running s ≡ true
        → panel_meta_cancel_at_period_end decode s.panel_meta ≡ true
        → due_by (day_number later) s.next_due_date ≡ true
        → is_terminatable suspended_at updated_at decode later days s ≡ true
    over_now suspended_at updated_at later days s runs flag over = ground (arith, runs, flag, over)

    ends_now :
        (before used : Bool) (test : Service → Bool) (o : Option Service) {s : Service}
        → used ≡ true
        → o ≡ some s
        → test s ≡ true
        → (before || (used && passes test o)) ≡ true
    ends_now before used test o u e t = rw (u, e) (ground (arith, t))

    -- Where moreover every service stands under its own id and the period of the service is over: a run
    -- of `AutoTerminate` that ends without an error puts its termination on the queue.
    pub accepted_terminated :
        (suspended_at : Text → Option Time) (updated_at : ℕ → Time) (later : Time)
        (days n request : ℕ) (svc : Service) (r : CancellationRequest) (w accepted : World)
        → ((meta : Text)
            → panel_meta_cancel_at_period_end decode (out.with_cancel_at_period_end meta) ≡ true)
        → find (λ (q : CancellationRequest). q.id == request) w.db.cancellation_requests ≡ some r
        → w.db.services r.service_id ≡ some svc
        → svc.id ≡ r.service_id
        → accept_cancellation_request out now actor request w ≡ (ok tt, accepted)
        → ((k : ℕ) → under (λ (s : Service). s.id) k (accepted.db.services k) ≡ true)
        → ltb r.service_id accepted.db.next_service ≡ true
        → due_by (day_number later) svc.next_due_date ≡ true
        → (auto_terminate out suspended_at updated_at decode later days accepted).0 ≡ ok (n, ok tt)
        → terminates r.service_id
            (auto_terminate out suspended_at updated_at decode later days accepted).1.jobs
          ≡ true
    accepted_terminated suspended_at updated_at later days n request svc r w accepted law asked
          there same_one e keyed used over run =
        let v : IsMarked r.service_id (to_end svc) accepted.db =
          subst (λ (p : Result (Unit {0}) × World). IsMarked r.service_id (to_end svc) p.1.db) e
            (accepted_row request svc r w asked there same_one
              (ap (λ (p : Result (Unit {0}) × World). p.0) e)) in
        let due_now : is_terminatable suspended_at updated_at decode later days (to_end svc)
            ≡ true =
          over_now suspended_at updated_at later days (to_end svc) v.running (law svc.panel_meta)
            over in
        auto_terminate_lem out suspended_at updated_at decode later days r.service_id n accepted
          keyed run
        ∙ ends_now (terminates r.service_id accepted.jobs) _ _ _ used v.found due_now
