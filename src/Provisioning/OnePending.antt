-- ===== src/Provisioning/OnePending.antt =====
-- The pending rows of backend/internal/modules/provisioning/cancellation_repo.go, and the calls on the
-- store that `CancelService` and the decisions on a request make.
use whcms.Base.{
  ℕ, ◌+◌, ◌≤◌, ◌≡◌, refl, sym, subst, true, false, Option, none, List, [], ◌∷◌, ◌++◌, map, length,
  inl, inr, arith, if◌then◌else◌, ◌==◌, any, select, same, Bool-cases,
}
use whcms.Base.Action.{Action}
use whcms.Base.Keeps.{Keeps, keeps_rules, pure-Keeps, then-Keeps, if-Keeps}
use whcms.Domain.Enums.{
  CancellationRequestStatus, CancellationRequestStatus-discrete, InvoiceStatus,
}
use whcms.Domain.Calendar.{Time}
use whcms.Store.Tables.{Db, Service, Invoice, InvoiceItem, CancellationRequest}
use whcms.Store.Invoices.{list_by_client, get_items_by_invoice_ids, update_status}
use whcms.Store.Services.{update_service}
use whcms.Store.Cancellations.{
  is_pending_for, conflicts, decided, get_cancellation_request, create_cancellation_request,
  update_cancellation_request,
}
use whcms.Billing.Cancel.{move_invoice}
use whcms.Provisioning.Cancellation.{
  get_owned, renews, cancel_renewals, cancel_renewals_in, cancel_open_renewal_invoices,
}
use whcms.Provisioning.Frames.{get_service-Keeps}

abbrev pub pending_of : ℕ → List CancellationRequest → ℕ
pending_of s rows = length (select (is_pending_for s) rows)

pub record IsOnePending (db : Db) : Type 0 where
  pub most : (s : ℕ) → pending_of s db.cancellation_requests ≤ 1

frame-IsOnePending {κ} :
    {A : Type κ} (m : Action Db A)
    → ((db : Db) → (m db).1.cancellation_requests ≡ db.cancellation_requests)
    → Keeps IsOnePending m
frame-IsOnePending m h = record {
  at = λ db v. record { most = λ s. subst (λ rows. pending_of s rows ≤ 1) (sym (h db)) (v.most s) };
}

pending_of-append :
    (s : ℕ) (rows : List CancellationRequest) (r : CancellationRequest)
    → pending_of s (rows ++ (r ∷ [])) ≡ pending_of s rows + (if is_pending_for s r then 1 else 0)
pending_of-append s [] r = ground arith
pending_of-append s (x ∷ rows) r = ground (arith, pending_of-append s rows r)

none_pending :
    (s : ℕ) (rows : List CancellationRequest)
    → any (is_pending_for s) rows ≡ false
    → pending_of s rows ≡ 0
none_pending s [] e = refl
none_pending s (x ∷ rows) e = ground (arith, none_pending s rows, e)

no_rival :
    (s : ℕ) (r : CancellationRequest) (rows : List CancellationRequest)
    → conflicts r rows ≡ false
    → is_pending_for s r ≡ true
    → any (is_pending_for s) rows ≡ false
no_rival s r rows e p =
    let one : r.service_id ≡ s = ground (arith, p) in
    let waits : same CancellationRequestStatus-discrete r.status CancellationRequestStatus.pending
        ≡ true =
      ground (arith, p) in
    subst (λ k. any (is_pending_for k) rows ≡ false) one (ground (arith, waits, e))

-- A new row joins no pending row of its service.
room :
    (s : ℕ) (r : CancellationRequest) (rows : List CancellationRequest)
    → conflicts r rows ≡ false
    → pending_of s rows ≤ 1
    → pending_of s (rows ++ (r ∷ [])) ≤ 1
unfolding CancellationRequestStatus-discrete
room s r rows e h = elim (Bool-cases (is_pending_for s r)) [
  | inl p ↦
      let none_now = none_pending s rows (no_rival s r rows e p) in
      let added = pending_of-append s rows r in ground (arith, none_now, added, p)
  | inr p ↦ let added = pending_of-append s rows r in ground (arith, added, p, h)
]

pub create_cancellation_request-IsOnePending :
    (r : CancellationRequest) → Keeps IsOnePending (create_cancellation_request r)
unfolding create_cancellation_request
create_cancellation_request-IsOnePending r = record {
  at = λ db v. elim (Bool-cases (conflicts r db.cancellation_requests)) [
    | inl e ↦ rw (e, create_cancellation_request) v
    | inr e ↦
        rw (e, create_cancellation_request)
          (record {
            most = λ s.
                room s (record r { id = db.next_cancellation_request }) db.cancellation_requests e
                  (v.most s);
          })
  ];
}

fewer :
    (s : ℕ) (new : CancellationRequest) (rows : List CancellationRequest)
    → same CancellationRequestStatus-discrete new.status CancellationRequestStatus.pending ≡ false
    → pending_of s (map (decided new) rows) ≤ pending_of s rows
fewer s new [] e = omega arith
fewer s new (x ∷ rows) e = ground (arith, fewer s new rows e, e)

pub update_cancellation_request-IsOnePending :
    (r : CancellationRequest)
    → same CancellationRequestStatus-discrete r.status CancellationRequestStatus.pending ≡ false
    → Keeps IsOnePending (update_cancellation_request r)
unfolding update_cancellation_request
update_cancellation_request-IsOnePending r n = record {
  at = λ db v.
      elim (Bool-cases (any (λ (q : CancellationRequest). q.id == r.id) db.cancellation_requests)) [
        | inl e ↦
            rw (e, update_cancellation_request)
              (record {
                most = λ s.
                    (let fewer_now = fewer s r db.cancellation_requests n in
                      let most_now = v.most s in omega arith);
              })
        | inr e ↦ rw (e, update_cancellation_request) v
      ];
}

pub update_service-IsOnePending : (svc : Service) → Keeps IsOnePending (update_service svc)
unfolding update_service
update_service-IsOnePending svc = frame-IsOnePending _ λ db. ground arith

update_status-IsOnePending :
    (id : ℕ) (status : InvoiceStatus) (paid_at : Option Time)
    → Keeps IsOnePending (update_status id status paid_at)
unfolding update_status
update_status-IsOnePending id status paid_at = frame-IsOnePending _ λ db. ground arith

move_invoice-IsOnePending : (from to : InvoiceStatus) → Keeps IsOnePending (move_invoice from to)
unfolding move_invoice
move_invoice-IsOnePending from to = record { at = λ db v. v }

cancel_renewals-IsOnePending :
    (id : ℕ) (items : List InvoiceItem) (invoices : List Invoice)
    → Keeps IsOnePending (cancel_renewals id items invoices)
unfolding cancel_renewals
cancel_renewals-IsOnePending id items [] = pure-Keeps tt
cancel_renewals-IsOnePending id items (inv ∷ rest) =
    then-Keeps _ _
      (if-Keeps (renews id inv.id items) _ _
        (then-Keeps _ _ (move_invoice-IsOnePending _ _) (update_status-IsOnePending _ _ none))
        (pure-Keeps tt))
      (cancel_renewals-IsOnePending id items rest)

pub cancel_open_renewal_invoices-IsOnePending :
    (svc : Service) → Keeps IsOnePending (cancel_open_renewal_invoices svc)
unfolding cancel_open_renewal_invoices cancel_renewals_in list_by_client get_items_by_invoice_ids
cancel_open_renewal_invoices-IsOnePending svc =
    search (keeps_rules, cancel_renewals-IsOnePending) depth 20

pub get_owned-Keeps {μ} : {P : Db → Type μ} (client id : ℕ) → Keeps P (get_owned client id)
unfolding get_owned
get_owned-Keeps client id = search (keeps_rules, get_service-Keeps)

pub get_cancellation_request-Keeps {μ} :
    {P : Db → Type μ} (id : ℕ) → Keeps P (get_cancellation_request id)
unfolding get_cancellation_request
get_cancellation_request-Keeps id = search keeps_rules
